-- ===== src/Server/Valid.antt =====
-- server.cpp: the invariant of the connections, and `conn_destroy`.
use redis_lite.Base.{
  ℕ, zero, suc, ◌+◌, ◌<◌, ◌≡◌, ◌≢◌, inl, inr, refl, ◌∙◌, sym, ap, List, [], ◌∷◌, ◌++◌, Option, none,
  some, ◌>>=◌, ◌==◌, if◌then◌else◌, arith, count-append, to_nat, length, get_or, set, get_or-set,
  get_elem?-get_or, Returns,
}
use mathlib.Core.Option.{some-injective}
use redis_lite.Base.Memory.{
  store, store-same, store-other, store-cases, eq-cases, ==-same, ==-false,
}
use redis_lite.DList.{dlist_detach}
use redis_lite.DList.Ring.{times, IsRing}
use redis_lite.DList.Refined.{dlist_detach-IsRing}
use redis_lite.Server.{Client, Server, idle_list, conn_destroy}

pub not_none {ℓ} : {A : Type ℓ} {a : A} → none ≡ some a → ⊥
not_none e = cc

-- A slot that is taken is in the table.
pub in_table :
    (table : List (Option ℕ)) (fd p : ℕ) → get_or table fd none ≡ some p → fd < length table
in_table [] fd p e = absurd (not_none e)
in_table (x ∷ table) zero p e = omega arith
in_table (x ∷ table) (suc fd) p e = omega (arith, in_table table fd p e)

module _ {S : Type 0} where
  -- The connection at `p` is allocated and has its slot.
  abbrev pub IsKnown : Server S → ℕ → Type 0
  IsKnown s p = (c : Client) × (s.clients p ≡ some c) × (get_or s.fd2conn c.fd none ≡ some p)

  -- The idle list is a ring of the allocated connections, each of which has a slot of the table,
  -- that of its descriptor, and the addresses that `new` will give are free.
  pub record IsServer (s : Server S) (ps : List ℕ) : Type 0 where
    pub ring : IsRing s.links idle_list ps
    pub known : (p : ℕ) → 0 < times p ps → IsKnown s p
    pub only : (p : ℕ) (c : Client) → s.clients p ≡ some c → 0 < times p ps
    pub table :
        (fd p : ℕ)
        → get_or s.fd2conn fd none ≡ some p
        → (c : Client) × (s.clients p ≡ some c) × (c.fd ≡ fd)
    pub below : (p : ℕ) (c : Client) → s.clients p ≡ some c → p < s.fresh
    pub started : 0 < s.fresh

  module _ (s : Server S) (ys : List ℕ) (p : ℕ) (zs : List ℕ) (v : IsServer s (ys ++ (p ∷ zs)))
      (c : Client) (e : s.clients p ≡ some c) (own : get_or s.fd2conn c.fd none ≡ some p) where
    times_split : (q : ℕ) → times q (ys ++ (p ∷ zs)) ≡ times q ys + (to_nat (p == q) + times q zs)
    times_split q = count-append (λ z. z == q) ys (p ∷ zs)

    abbrev destroyed : Server S
    destroyed = record s {
      fd2conn = set s.fd2conn c.fd none;
      links = dlist_detach s.links p;
      clients = store s.clients p none;
    }

    -- The connection stands in the list once.
    other_on : (q : ℕ) → 0 < times q (ys ++ zs) → q ≢ p
    other_on q h same = omega (
      arith,
      h,
      count-append (λ z. z == q) ys zs,
      times_split q,
      v.ring.once q,
      ap to_nat (ap (λ r. r == q) (sym same) ∙ ==-same q),
    )

    slot_after :
        (fd : ℕ)
        → get_or (set s.fd2conn c.fd none) fd none
          ≡ (if c.fd == fd then none else get_or s.fd2conn fd none)
    slot_after fd = get_or-set s.fd2conn c.fd fd none none (in_table s.fd2conn c.fd p own)

    slot_kept :
        (fd : ℕ) → fd ≢ c.fd → get_or (set s.fd2conn c.fd none) fd none ≡ get_or s.fd2conn fd none
    slot_kept fd off =
        slot_after fd
        ∙ ap (λ b. if b then none else get_or s.fd2conn fd none)
            (==-false c.fd fd (λ f. off (sym f)))

    other-IsKnown : (q : ℕ) → q ≢ p → IsKnown s q → IsKnown destroyed q
    other-IsKnown q off (x, f, slot) = (
      x,
      store-other s.clients p q none off ∙ f,
      slot_kept x.fd (λ same.
            off (some-injective q p (sym slot ∙ ap (λ i. get_or s.fd2conn i none) same ∙ own)))
          ∙ slot,
    )

    still_only : (q : ℕ) (x : Client) → destroyed.clients q ≡ some x → 0 < times q (ys ++ zs)
    still_only q x f = elim (store-cases s.clients p q none (some x) f) [
      | inl (same, odd) ↦ absurd (not_none odd)
      | inr (off, g) ↦ omega (
        arith,
        v.only q x g,
        times_split q,
        count-append (λ z. z == q) ys zs,
        ap to_nat (==-false p q (λ same. off (sym same))),
      )
    ]

    still_table :
        (fd q : ℕ)
        → get_or destroyed.fd2conn fd none ≡ some q
        → (x : Client) × (destroyed.clients q ≡ some x) × (x.fd ≡ fd)
    still_table fd q f = elim (eq-cases fd c.fd) [
      | inl same ↦ absurd (
          not_none (
            sym (
              slot_after fd
              ∙ ap (λ b. if b then none else get_or s.fd2conn fd none)
                  (ap (λ i. c.fd == i) same ∙ ==-same c.fd))
            ∙ f))
      | inr off ↦
          let (x, g, h) = v.table fd q (sym (slot_kept fd off) ∙ f) in
          (
            x,
            store-other s.clients p q none (λ same. off (
                  sym h
                  ∙ ap (λ (y : Client). y.fd) (some-injective x c (sym g ∙ ap s.clients same ∙ e))))
                ∙ g,
            h,
          )
    ]

    destroyed-IsServer : IsServer destroyed (ys ++ zs)
    destroyed-IsServer = record {
      ring = dlist_detach-IsRing s.links idle_list ys p zs v.ring;
      known = λ q h.
          other-IsKnown q (other_on q h)
            (v.known q (omega (arith, h, times_split q, count-append (λ z. z == q) ys zs)));
      only = still_only;
      table = still_table;
      below = λ q x f. elim (store-cases s.clients p q none (some x) f) [
        | inl (same, odd) ↦ absurd (not_none odd)
        | inr (off, g) ↦ v.below q x g
      ];
      started = v.started;
    }

  -- What `conn_destroy` leaves: one connection is gone, and the others and the rest are the same.
  pub record Destroyed (s : Server S) (ys : List ℕ) (p : ℕ) (zs : List ℕ) (s' : Server S)
      : Type 0 where
    pub valid : IsServer s' (ys ++ zs)
    pub gone : s'.clients p ≡ none
    pub others : (q : ℕ) → q ≢ p → s'.clients q ≡ s.clients q
    pub rest : s'.rest ≡ s.rest

  -- Of valid connections, `conn_destroy` removes one without a fault: its memory, its place in the
  -- list and its slot. The others stay, in their order, and valid.
  pub conn_destroy-Destroyed :
      (s : Server S) (ys : List ℕ) (p : ℕ) (zs : List ℕ)
      → IsServer s (ys ++ (p ∷ zs))
      → Returns (Destroyed s ys p zs) (conn_destroy p s)
  unfolding conn_destroy
  conn_destroy-Destroyed s ys p zs v =
      let (c, e, own) =
        v.known p (omega (arith, count-append (λ z. z == p) ys (p ∷ zs), ap to_nat (==-same p))) in
      let slot = get_elem?-get_or s.fd2conn c.fd none (in_table s.fd2conn c.fd p own) in
      rw (e, ◌>>=◌, slot)
        (
          _,
          refl,
          record {
            valid = destroyed-IsServer s ys p zs v c e own;
            gone = store-same s.clients p none;
            others = λ q off. store-other s.clients p q none off;
            rest = refl;
          },
        )
