-- ===== src/Server/Idle.antt =====
-- The first loop of `process_timers` of server.cpp, over the idle connections.
use redis_lite.Base.{
  ℕ, zero, suc, ◌+◌, ◌^◌, ◌≤◌, ◌<◌, ◌≡◌, ◌≢◌, inl, inr, refl, ◌∙◌, sym, ap, true, false, List, [],
  ◌∷◌, ◌++◌, Option, some, ◌>>=◌, ◌==◌, ltb, arith, count-append, to_nat, length, Bool-cases,
  Returns,
}
use redis_lite.Base.Memory.{eq-cases, ==-same, ==-false}
use redis_lite.DList.{dlist_empty}
use redis_lite.DList.Ring.{times}
use redis_lite.DList.Refined.{dlist_empty-is_nil}
use redis_lite.Server.{
  Client, Server, idle_list, k_idle_timeout_ms, idle_deadline, conn_destroy, idle_turn, expire_idle,
}
use redis_lite.Server.Valid.{IsServer, Destroyed, conn_destroy-Destroyed}

-- The connections are in the order of their last activity, which is between two times.
abbrev pub IsAged : (ℕ → Option Client) → ℕ → List ℕ → ℕ → Type 0
IsAged clients lo [] hi = lo ≤ hi
IsAged clients lo (p ∷ ps) hi =
    (c : Client) × (clients p ≡ some c)
    × (lo ≤ c.last_active_ms)
    × IsAged clients c.last_active_ms ps hi

abbrev pub IsActive : (ℕ → Option Client) → ℕ → ℕ → ℕ → Type 0
IsActive clients lo p hi =
    (c : Client) × (clients p ≡ some c) × (lo ≤ c.last_active_ms) × (c.last_active_ms ≤ hi)

pub aged_bounds :
    (clients : ℕ → Option Client) (lo : ℕ) (ps : List ℕ) (hi : ℕ)
    → IsAged clients lo ps hi
    → lo ≤ hi
aged_bounds clients lo [] hi a = a
aged_bounds clients lo (p ∷ ps) hi (c, e, le, a) =
    omega (arith, le, aged_bounds clients c.last_active_ms ps hi a)

pub aged_each :
    (clients : ℕ → Option Client) (lo : ℕ) (ps : List ℕ) (hi q : ℕ)
    → IsAged clients lo ps hi
    → 0 < times q ps
    → IsActive clients lo q hi
aged_each clients lo [] hi q a h = absurd (omega (arith, h))
aged_each clients lo (p ∷ ps) hi q (c, e, le, a) h = elim (eq-cases q p) [
  | inl same ↦ (c, ap clients same ∙ e, le, aged_bounds clients c.last_active_ms ps hi a)
  | inr off ↦
      let (x, f, u, w) =
        aged_each clients c.last_active_ms ps hi q a
          (omega (arith, h, ap to_nat (==-false p q (λ same. off (sym same))))) in
      (x, f, omega (arith, le, u), w)
]

pub IsAged-frame :
    (clients clients' : ℕ → Option Client) (lo : ℕ) (ps : List ℕ) (hi : ℕ)
    → ((q : ℕ) → 0 < times q ps → clients' q ≡ clients q)
    → IsAged clients lo ps hi
    → IsAged clients' lo ps hi
IsAged-frame clients clients' lo [] hi same a = a
IsAged-frame clients clients' lo (p ∷ ps) hi same (c, e, le, a) = (
  c,
  same p (omega (arith, ap to_nat (==-same p))) ∙ e,
  le,
  IsAged-frame clients clients' c.last_active_ms ps hi (λ q h. same q (omega (arith, h))) a,
)

pub deadline_lem :
    (now : ℕ) (c : Client)
    → c.last_active_ms ≤ now
    → now + k_idle_timeout_ms < 2 ^ 64
    → idle_deadline c ≡ c.last_active_ms + k_idle_timeout_ms
deadline_lem now c le small = omega (arith, le, small)

pub not_ltb : (a b : ℕ) → ltb a b ≡ false → b ≤ a
not_ltb a b e = ground (arith, e)

pub is_ltb : (a b : ℕ) → ltb a b ≡ true → a < b
is_ltb a b e = ground (arith, e)

module _ {S : Type 0} where
  -- What the loop leaves: the connections at the front that were idle for too long are gone, and
  -- the others are as they were.
  pub record Idled (now : ℕ) (s : Server S) (ps gone left : List ℕ) (s' : Server S) : Type 0 where
    pub valid : IsServer s' left
    pub split : ps ≡ gone ++ left
    pub late :
        (p : ℕ)
        → 0 < times p gone
        → (c : Client) × (s.clients p ≡ some c) × (c.last_active_ms + k_idle_timeout_ms ≤ now)
    pub same : (p : ℕ) → 0 < times p left → s'.clients p ≡ s.clients p
    pub young :
        (p : ℕ)
        → 0 < times p left
        → (c : Client) × (s.clients p ≡ some c) × (now < c.last_active_ms + k_idle_timeout_ms)
    pub rest : s'.rest ≡ s.rest

  stop_empty :
      (fuel now : ℕ) (s : Server S)
      → dlist_empty s.links idle_list ≡ true
      → expire_idle (suc fuel) now s ≡ some s
  unfolding expire_idle idle_turn
  stop_empty fuel now s e = ap (idle_turn (expire_idle fuel now) now s) e

  stop_young :
      (fuel now p : ℕ) (s : Server S) (c : Client)
      → dlist_empty s.links idle_list ≡ false
      → s.links.next idle_list ≡ p
      → s.clients p ≡ some c
      → ltb now (idle_deadline c) ≡ true
      → expire_idle (suc fuel) now s ≡ some s
  unfolding expire_idle idle_turn
  stop_young fuel now p s c e n f y =
      ap (idle_turn (expire_idle fuel now) now s) e ∙ rw (ap s.clients n ∙ f, ◌>>=◌, y) refl

  step_late :
      (fuel now p : ℕ) (s s' : Server S) (c : Client)
      → dlist_empty s.links idle_list ≡ false
      → s.links.next idle_list ≡ p
      → s.clients p ≡ some c
      → ltb now (idle_deadline c) ≡ false
      → conn_destroy p s ≡ some s'
      → expire_idle (suc fuel) now s ≡ expire_idle fuel now s'
  unfolding expire_idle idle_turn
  step_late fuel now p s s' c e n f y run =
      ap (idle_turn (expire_idle fuel now) now s) e
      ∙ rw (ap s.clients n ∙ f, ◌>>=◌, y, ap (λ q. conn_destroy q s) n ∙ run) refl

  young-Idled :
      (now p : ℕ) (s : Server S) (ps : List ℕ) (c : Client)
      → IsServer s (p ∷ ps)
      → s.clients p ≡ some c
      → IsAged s.clients c.last_active_ms ps now
      → now < c.last_active_ms + k_idle_timeout_ms
      → Idled now s (p ∷ ps) [] (p ∷ ps) s
  young-Idled now p s ps c v e a y = record {
    valid = v;
    split = refl;
    late = λ q h. absurd (omega (arith, h));
    same = λ q h. refl;
    young = λ q h.
        let (x, f, le, _) =
          aged_each s.clients c.last_active_ms (p ∷ ps) now q (c, e, omega arith, a) h in
        (x, f, omega (arith, y, le));
    rest = refl;
  }

  module _ (now p : ℕ) (s s₁ : Server S) (ps : List ℕ) (c : Client) (v : IsServer s (p ∷ ps))
      (e : s.clients p ≡ some c) (old : c.last_active_ms + k_idle_timeout_ms ≤ now)
      (w : Destroyed s [] p ps s₁) where
    behind : (q : ℕ) → 0 < times q ps → q ≢ p
    behind q h same =
        omega (arith, h, v.ring.once q, ap to_nat (ap (λ r. r == q) (sym same) ∙ ==-same q))

    late-Idled :
        (gone left : List ℕ) (s' : Server S)
        → Idled now s₁ ps gone left s'
        → Idled now s (p ∷ ps) (p ∷ gone) left s'
    late-Idled gone left s' x =
        let on = λ (q : ℕ). ap (times q) x.split ∙ count-append (λ z. z == q) gone left in
        record {
          valid = x.valid;
          split = ap (λ l. p ∷ l) x.split;
          late = λ q h. elim (eq-cases q p) [
            | inl same ↦ (c, ap s.clients same ∙ e, old)
            | inr off ↦
                let (y, f, g) =
                  x.late q (omega (arith, h, ap to_nat (==-false p q (λ same. off (sym same))))) in
                (y, sym (w.others q off) ∙ f, g)
          ];
          same = λ q h. x.same q h ∙ w.others q (behind q (omega (arith, h, on q)));
          young = λ q h.
              let (y, f, g) = x.young q h in
              (y, sym (w.others q (behind q (omega (arith, h, on q)))) ∙ f, g);
          rest = x.rest ∙ w.rest;
        }

  -- On valid connections in the order of their last activity, none later than now, the loop ends
  -- without a fault: exactly those at the front that were idle for 5000 ms or longer are gone, every
  -- other one was active since, and these and the rest are as they were.
  pub expire_idle-Idled :
      (fuel lo now : ℕ) (s : Server S) (ps : List ℕ)
      → IsServer s ps
      → IsAged s.clients lo ps now
      → now + k_idle_timeout_ms < 2 ^ 64
      → length ps < fuel
      → Returns
          (λ s'. (gone : List ℕ) × (left : List ℕ) × Idled now s ps gone left s')
          (expire_idle fuel now s)
  expire_idle-Idled zero lo now s ps v a small enough = absurd (omega (arith, enough))
  expire_idle-Idled (suc fuel) lo now s [] v a small enough = (
    s,
    stop_empty fuel now s (dlist_empty-is_nil s.links idle_list [] v.ring),
    (
      [],
      [],
      record {
        valid = v;
        split = refl;
        late = λ p h. absurd (omega (arith, h));
        same = λ p h. refl;
        young = λ p h. absurd (omega (arith, h));
        rest = refl;
      },
    ),
  )
  expire_idle-Idled (suc fuel) lo now s (p ∷ ps) v (c, e, le, a) small enough =
      let full = dlist_empty-is_nil s.links idle_list (p ∷ ps) v.ring in
      let n = v.ring.path.0 in
      let dl = deadline_lem now c (aged_bounds s.clients c.last_active_ms ps now a) small in
      elim (Bool-cases (ltb now (idle_deadline c))) [
        | inl y ↦ (
          s,
          stop_young fuel now p s c full n e y,
          (
            [],
            p ∷ ps,
            young-Idled now p s ps c v e a (omega (arith, is_ltb now (idle_deadline c) y, dl)),
          ),
        )
        | inr y ↦
            let (s₁, run, w) = conn_destroy-Destroyed s [] p ps v in
            let old : c.last_active_ms + k_idle_timeout_ms ≤ now =
              omega (arith, not_ltb now (idle_deadline c) y, dl) in
            let off = behind now p s s₁ ps c v e old w in
            let a₁ =
              IsAged-frame s.clients s₁.clients c.last_active_ms ps now
                (λ q h. w.others q (off q h)) a in
            let (s', go, (gone, left, x)) =
              expire_idle-Idled fuel c.last_active_ms now s₁ ps w.valid a₁ small
                (omega (arith, enough)) in
            (
              s',
              step_late fuel now p s s₁ c full n e y run ∙ go,
              (p ∷ gone, left, late-Idled now p s s₁ ps c v e old w gone left s' x),
            )
      ]
