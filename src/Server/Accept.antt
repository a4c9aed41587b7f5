-- ===== src/Server/Accept.antt =====
-- `handle_accept` of server.cpp, and `main` at the listening socket.
use redis_lite.Base.{
  ℕ, zero, suc, ◌+◌, ◌-◌, ◌≤◌, ◌<◌, ◌≡◌, ◌≢◌, inl, inr, refl, ◌∙◌, sym, ap, List, [], ◌∷◌, ◌++◌,
  Option, none, some, ◌>>=◌, ◌==◌, leb, if◌then◌else◌, arith, count-append, to_nat, length,
  length-append, length-replicate, replicate, get_or, set, get_or-set, get_or-replicate,
  get_elem?-get_or, Bool-cases, Returns,
}
use mathlib.Core.Option.{some-injective}
use redis_lite.Base.Memory.{
  store, store-same, store-other, store-cases, eq-cases, ==-same, ==-false, ==-true,
}
use redis_lite.Conn.{accepted_conn}
use redis_lite.DList.{dlist_insert_before}
use redis_lite.DList.Ring.{times}
use redis_lite.DList.Refined.{dlist_insert_before-IsRing}
use redis_lite.Server.{
  Client, Server, idle_list, resized, add_client, handle_accept, register, accept_turn,
}
use redis_lite.Server.Valid.{IsServer, IsKnown, not_none}
use redis_lite.Server.Idle.{IsAged, IsAged-frame}

-- A longer table has free slots at its end.
get_or-longer :
    (table : List (Option ℕ)) (n i : ℕ)
    → get_or (table ++ replicate n none) i none ≡ get_or table i none
get_or-longer [] n i = get_or-replicate n i none
get_or-longer (x ∷ table) n zero = refl
get_or-longer (x ∷ table) n (suc i) = get_or-longer table n i

resized_slot :
    (table : List (Option ℕ)) (fd i : ℕ) → get_or (resized table fd) i none ≡ get_or table i none
resized_slot table fd i = elim (Bool-cases (leb (length table) fd)) [
  | inl short ↦ rw short (get_or-longer table (fd + 1 - length table) i)
  | inr long ↦ rw long refl
]

length-resized : (table : List (Option ℕ)) (fd : ℕ) → fd < length (resized table fd)
length-resized table fd = elim (Bool-cases (leb (length table) fd)) [
  | inl short ↦ rw short (
      omega (
        arith,
        length-append table (replicate (fd + 1 - length table) none),
        length-replicate {A = Option ℕ} (fd + 1 - length table) none,
      ))
  | inr long ↦ rw long (ground (arith, long))
]

module _ {S : Type 0} (now connfd : ℕ) (s : Server S) (ps : List ℕ) (v : IsServer s ps)
    (free : get_or s.fd2conn connfd none ≡ none) where
  abbrev pub new_client : Client
  new_client = record { fd = connfd; last_active_ms = now; conn = accepted_conn }

  abbrev pub accepted : Server S
  accepted = record {
    fd2conn = set (resized s.fd2conn connfd) connfd (some s.fresh);
    clients = store s.clients s.fresh (some new_client);
    links = dlist_insert_before s.links idle_list s.fresh;
    fresh = s.fresh + 1;
    rest = s.rest;
  }

  slot_now :
      (fd : ℕ)
      → get_or accepted.fd2conn fd none
        ≡ (if connfd == fd then some s.fresh else get_or s.fd2conn fd none)
  slot_now fd =
      get_or-set (resized s.fd2conn connfd) connfd fd (some s.fresh) none
        (length-resized s.fd2conn connfd)
      ∙ ap (λ o. if connfd == fd then some s.fresh else o) (resized_slot s.fd2conn connfd fd)

  slot_own : get_or accepted.fd2conn connfd none ≡ some s.fresh
  slot_own =
      slot_now connfd
      ∙ ap (λ b. if b then some s.fresh else get_or s.fd2conn connfd none) (==-same connfd)

  slot_other : (fd : ℕ) → fd ≢ connfd → get_or accepted.fd2conn fd none ≡ get_or s.fd2conn fd none
  slot_other fd off =
      slot_now fd
      ∙ ap (λ b. if b then some s.fresh else get_or s.fd2conn fd none)
          (==-false connfd fd (λ f. off (sym f)))

  not_fresh : (q : ℕ) (c : Client) → s.clients q ≡ some c → q ≢ s.fresh
  not_fresh q c e same = omega (arith, v.below q c e, same)

  -- A new address is not in the list.
  off_ring : times s.fresh (idle_list ∷ ps) ≡ 0
  off_ring = elim (Bool-cases (times s.fresh ps == 0)) [
    | inl e ↦ omega (
      arith,
      ==-true (times s.fresh ps) 0 e,
      ap to_nat (==-false 0 s.fresh (λ f. omega (arith, f, v.started))),
    )
    | inr e ↦
        let (c, f, _) = v.known s.fresh (ground (arith, e)) in absurd (not_fresh s.fresh c f refl)
  ]

  on_list : (q : ℕ) → times q (ps ++ (s.fresh ∷ [])) ≡ times q ps + to_nat (s.fresh == q)
  on_list q = omega (arith, count-append (λ z. z == q) ps (s.fresh ∷ []))

  IsKnown-after : (q : ℕ) → 0 < times q (ps ++ (s.fresh ∷ [])) → IsKnown accepted q
  IsKnown-after q h = elim (eq-cases q s.fresh) [
    | inl same ↦ (
      new_client,
      ap accepted.clients same ∙ store-same s.clients s.fresh (some new_client),
      slot_own ∙ ap some (sym same),
    )
    | inr off ↦
        let (c, e, slot) =
          v.known q
            (omega (arith, h, on_list q, ap to_nat (==-false s.fresh q (λ f. off (sym f))))) in
        (
          c,
          store-other s.clients s.fresh q (some new_client) off ∙ e,
          slot_other c.fd
                (λ same. not_none (sym free ∙ sym (ap (λ i. get_or s.fd2conn i none) same) ∙ slot))
              ∙ slot,
        )
  ]

  table_after :
      (fd q : ℕ)
      → get_or accepted.fd2conn fd none ≡ some q
      → (c : Client) × (accepted.clients q ≡ some c) × (c.fd ≡ fd)
  table_after fd q e = elim (eq-cases fd connfd) [
    | inl same ↦
        let own : s.fresh ≡ q =
          some-injective s.fresh q
            (sym slot_own ∙ ap (λ i. get_or accepted.fd2conn i none) (sym same) ∙ e) in
        (
          new_client,
          ap accepted.clients (sym own) ∙ store-same s.clients s.fresh (some new_client),
          sym same,
        )
    | inr off ↦
        let (c, f, g) = v.table fd q (sym (slot_other fd off) ∙ e) in
        (c, store-other s.clients s.fresh q (some new_client) (not_fresh q c f) ∙ f, g)
  ]

  pub accepted-IsServer : IsServer accepted (ps ++ (s.fresh ∷ []))
  accepted-IsServer = record {
    ring = dlist_insert_before-IsRing s.links idle_list ps s.fresh v.ring off_ring;
    known = IsKnown-after;
    only = λ q c e. elim (store-cases s.clients s.fresh q (some new_client) (some c) e) [
      | inl (same, _) ↦
          omega (arith, on_list q, ap to_nat (ap (λ r. r == q) (sym same) ∙ ==-same q))
      | inr (off, f) ↦ omega (arith, on_list q, v.only q c f)
    ];
    table = table_after;
    below = λ q c e. elim (store-cases s.clients s.fresh q (some new_client) (some c) e) [
      | inl (same, _) ↦ omega (arith, same)
      | inr (off, f) ↦ omega (arith, v.below q c f)
    ];
    started = omega arith;
  }

  accept_run : accept_turn now (some connfd) s ≡ some accepted
  unfolding accept_turn handle_accept add_client register
  accept_run =
      rw
        (
          store-same s.clients s.fresh (some new_client),
          ◌>>=◌,
          get_elem?-get_or (resized s.fd2conn connfd) connfd none (length-resized s.fd2conn connfd)
              ∙ ap some (resized_slot s.fd2conn connfd connfd ∙ free),
        )
        refl

IsAged-append :
    (clients : ℕ → Option Client) (lo : ℕ) (ps : List ℕ) (hi now p : ℕ) (c : Client)
    → IsAged clients lo ps hi
    → hi ≤ now
    → clients p ≡ some c
    → c.last_active_ms ≡ now
    → IsAged clients lo (ps ++ (p ∷ [])) now
IsAged-append clients lo [] hi now p c a le e t = (c, e, omega (arith, a, le, t), omega (arith, t))
IsAged-append clients lo (q ∷ ps) hi now p c (x, f, u, a) le e t =
    (x, f, u, IsAged-append clients x.last_active_ms ps hi now p c a le e t)

module _ {S : Type 0} where
  -- The new connection stands at the end of the list, in its slot; the others are the same.
  pub record Accepted (lo now connfd : ℕ) (s : Server S) (ps : List ℕ) (s' : Server S)
      : Type 0 where
    pub valid : IsServer s' (ps ++ (s.fresh ∷ []))
    pub aged : IsAged s'.clients lo (ps ++ (s.fresh ∷ [])) now
    pub slot : get_or s'.fd2conn connfd none ≡ some s.fresh
    pub added :
        s'.clients s.fresh
        ≡ some (record { fd = connfd; last_active_ms = now; conn = accepted_conn })
    pub others : (q : ℕ) → q ≢ s.fresh → s'.clients q ≡ s.clients q
    pub rest : s'.rest ≡ s.rest

  -- When `accept` gives a descriptor whose slot is free, the turn at the listening socket fails no
  -- assertion. The new connection takes the slot and stands last in the idle list, active now; the
  -- connections stay valid and in the order of their last activity, and the others are the same.
  pub accept_turn-Accepted :
      (lo hi now connfd : ℕ) (s : Server S) (ps : List ℕ)
      → IsServer s ps
      → IsAged s.clients lo ps hi
      → hi ≤ now
      → get_or s.fd2conn connfd none ≡ none
      → Returns (Accepted lo now connfd s ps) (accept_turn now (some connfd) s)
  accept_turn-Accepted lo hi now connfd s ps v a le free =
      let new = store-same s.clients s.fresh (some (new_client now connfd s ps v free)) in
      let others = λ (q : ℕ) (off : q ≢ s.fresh).
        store-other s.clients s.fresh q (some (new_client now connfd s ps v free)) off in
      (
        accepted now connfd s ps v free,
        accept_run now connfd s ps v free,
        record {
          valid = accepted-IsServer now connfd s ps v free;
          aged =
              IsAged-append (accepted now connfd s ps v free).clients lo ps hi now s.fresh _
                (IsAged-frame s.clients (accepted now connfd s ps v free).clients lo ps hi
                  (λ q h.
                    others q (not_fresh now connfd s ps v free q (v.known q h).0 (v.known q h).1))
                  a)
                le new refl;
          slot = slot_own now connfd s ps v free;
          added = new;
          others = others;
          rest = refl;
        },
      )
