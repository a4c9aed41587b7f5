-- ===== src/HashTable/Rehash.antt =====
-- The loop of `hm_help_rehashing` of hashtable.cpp.
use redis_lite.Base.{
  ℕ, zero, suc, ◌+◌, ◌-◌, ◌≤◌, ◌<◌, ◌≡◌, ◌⊎◌, refl, Bool, true, false, List, [], ◌∷◌, length,
  get_elem?, get_elem?-get_or, count, get_or_out, to_nat, arith, some, Bool-cases, inl, inr, ◌>>=◌,
  ◌&&◌, ltb,
}
use redis_lite.HashTable.{
  HNode, HTab, HMap, Chain, unlink, h_insert, h_detach, rehash_step, rehash_loop, k_rehashing_work,
}
use redis_lite.HashTable.Buckets.{chain_nodes, bucket, count-chain_nodes_zero}
use redis_lite.HashTable.Valid.{IsTab, any_node, h_insert-IsTab}
use redis_lite.HashTable.Search.{h_detach-IsWithout}

lt_cases : (i pos : ℕ) → i < pos + 1 → (i < pos) ⊎ (i ≡ pos)
lt_cases i pos h = ground arith

module _ {ℓ} {A : Type ℓ} where
  -- Both tables are there; the old one is empty below `migrate_pos`.
  pub record IsMigrating (m : HMap A) (nb ob : List (Chain A)) : Type ℓ where
    pub newer : IsTab m.newer nb
    pub older : IsTab m.older ob
    pub passed : (i : ℕ) → i < m.migrate_pos → bucket ob i ≡ []

  -- The nodes of both tables are the same, each as often.
  abbrev pub SameNodes : (nb ob nb' ob' : List (Chain A)) → Type ℓ
  SameNodes nb ob nb' ob' =
      (p : HNode A → Bool)
      → count p (chain_nodes nb') + count p (chain_nodes ob')
        ≡ count p (chain_nodes nb) + count p (chain_nodes ob)

  -- With the position behind the last bucket, the old table is empty.
  passed_all :
      (b : List (Chain A)) (pos : ℕ)
      → ((i : ℕ) → i < pos → bucket b i ≡ [])
      → length b ≤ pos
      → count any_node (chain_nodes b) ≡ 0
  passed_all b pos passed h = count-chain_nodes_zero any_node b λ i. elim (Bool-cases (ltb i pos)) [
    | inl below ↦ rw (passed i (ground arith))
    | inr above ↦ rw (get_or_out b i [] (ground arith))
  ]

  -- While the old table is not empty, the position is inside it.
  migrate_pos-lt :
      (m : HMap A) (nb ob : List (Chain A))
      → IsMigrating m nb ob
      → 0 < m.older.size
      → m.migrate_pos < length ob
  migrate_pos-lt m nb ob v h = elim (Bool-cases (ltb m.migrate_pos (length ob))) [
    | inl inside ↦ ground arith
    | inr out ↦
        let none_left = passed_all ob m.migrate_pos v.passed (ground arith) in
        absurd (omega (arith, v.older.sized))
  ]

  Chain-cases : (c : Chain A) → (c ≡ []) ⊎ ((x : HNode A) × (d : Chain A) × (c ≡ x ∷ d))
  Chain-cases [] = inl refl
  Chain-cases (x ∷ d) = inr (x, d, refl)

  -- One round: `m'` from `m`.
  pub record Stepped (m : HMap A) (nb ob : List (Chain A)) (r : Bool × HMap A)
      (nb' ob' : List (Chain A)) : Type ℓ where
    pub valid : IsMigrating r.1 nb' ob'
    pub same : SameNodes nb ob nb' ob'
    pub width : length ob' ≡ length ob
    pub moves : r.0 ≡ true → (r.1.migrate_pos ≡ m.migrate_pos) × (r.1.older.size + 1 ≡ m.older.size)
    pub passes :
        r.0 ≡ false → (r.1.migrate_pos ≡ m.migrate_pos + 1) × (r.1.older.size ≡ m.older.size)

  module _ (m : HMap A) (ob : List (Chain A)) (array : m.older.tab ≡ some ob)
      (inside : m.migrate_pos < length ob) where
    step_empty :
        bucket ob m.migrate_pos ≡ []
        → rehash_step m ≡ some (false, record m { migrate_pos = m.migrate_pos + 1 })
    unfolding rehash_step
    step_empty e = ground (arith, get_elem?-get_or ob m.migrate_pos [] inside)

    step_move :
        (x : HNode A) (d : Chain A) (node : HNode A) (older newer : HTab A)
        → bucket ob m.migrate_pos ≡ x ∷ d
        → h_detach m.older (m.migrate_pos, 0) ≡ some (node, older)
        → h_insert m.newer node ≡ some newer
        → rehash_step m ≡ some (true, record m { newer = newer; older = older })
    unfolding rehash_step
    step_move x d node older newer e f g =
        ground (arith, get_elem?-get_or ob m.migrate_pos [] inside)

  pub step-Stepped :
      (m : HMap A) (nb ob : List (Chain A))
      → IsMigrating m nb ob
      → 0 < m.older.size
      → (r : Bool × HMap A) × (rehash_step m ≡ some r)
        × ((nb' : List (Chain A)) × (ob' : List (Chain A)) × Stepped m nb ob r nb' ob')
  step-Stepped m nb ob v h =
      let inside = migrate_pos-lt m nb ob v h in
      elim (Chain-cases (bucket ob m.migrate_pos)) [
        | inl e ↦ (
          _,
          step_empty m ob v.older.array inside e,
          (
            nb,
            ob,
            record {
              valid = record {
                newer = v.newer;
                older = v.older;
                passed = λ i p. elim (lt_cases i m.migrate_pos p) [
                  | inl below ↦ v.passed i below
                  | inr here ↦ rw here e
                ];
              };
              same = λ p. refl;
              width = refl;
              moves = λ f. cc;
              passes = λ f. (refl, refl);
            },
          ),
        )
        | inr (x, d, e) ↦
            let at : get_elem? (bucket ob m.migrate_pos) 0 ≡ some x = rw e in
            let rest : (p : HNode A → Bool)
                → count p (unlink (bucket ob m.migrate_pos) 0) + to_nat (p x)
                  ≡ count p (bucket ob m.migrate_pos) =
              λ p. unfold unlink in rw e (omega arith) in
            let (older, out, (ob', w)) =
              h_detach-IsWithout m.older ob m.migrate_pos 0 x v.older inside at rest in
            let (newer, put, (mask, (nb', v', more))) = h_insert-IsTab m.newer nb x v.newer in
            (
              _,
              step_move m ob v.older.array inside x d x older newer e out put,
              (
                nb',
                ob',
                record {
                  valid = record {
                    newer = v';
                    older = w.valid;
                    passed = λ i p. w.empties i (v.passed i p);
                  };
                  same = λ p. omega (arith, w.rest p, more p);
                  width = omega (arith, w.valid.width, w.mask, v.older.width);
                  moves = λ f. (refl, omega (arith, w.valid.sized, v.older.sized, w.rest any_node));
                  passes = λ f. cc;
                },
              ),
            )
      ]

  -- Where the loop stops: the old table is empty, or `quota` nodes have been moved.
  pub record Rehashed (m : HMap A) (nb ob : List (Chain A)) (quota : ℕ) (m' : HMap A)
      (nb' ob' : List (Chain A)) : Type ℓ where
    pub valid : IsMigrating m' nb' ob'
    pub same : SameNodes nb ob nb' ob'
    pub progress : (m'.older.size ≡ 0) ⊎ (m'.older.size + quota ≡ m.older.size)

  pub loop-Rehashed :
      (fuel nwork : ℕ) (m : HMap A) (nb ob : List (Chain A))
      → IsMigrating m nb ob
      → nwork ≤ k_rehashing_work
      → (k_rehashing_work - nwork) + (length ob - m.migrate_pos) < fuel
      → (m' : HMap A) × (rehash_loop fuel nwork m ≡ some m')
        × ((nb' : List (Chain A)) × (ob' : List (Chain A)) × Rehashed m nb ob
              (k_rehashing_work - nwork)
              m'
              nb'
              ob')
  unfolding rehash_loop
  loop-Rehashed zero nwork m nb ob v few f = absurd (omega arith)
  loop-Rehashed (suc fuel) nwork m nb ob v few f =
      elim (Bool-cases (ltb nwork k_rehashing_work && ltb 0 m.older.size)) [
        | inr stop ↦ (
          m,
          rw (stop, rehash_loop) refl,
          (nb, ob, record { valid = v; same = λ p. refl; progress = ground arith }),
        )
        | inl more ↦
            let filled : 0 < m.older.size = ground arith in
            let inside = migrate_pos-lt m nb ob v filled in
            let (r, run, (nb₁, ob₁, s)) = step-Stepped m nb ob v filled in
            elim (Bool-cases r.0) [
              | inl moved ↦
                  let (m', go, (nb₂, ob₂, t)) =
                    loop-Rehashed fuel (nwork + 1) r.1 nb₁ ob₁ s.valid (ground arith)
                      (ground (arith, s.moves moved, s.width)) in
                  (
                    m',
                    rw (more, rehash_loop, run, ◌>>=◌, moved) go,
                    (
                      nb₂,
                      ob₂,
                      record {
                        valid = t.valid;
                        same = λ p. omega (arith, t.same p, s.same p);
                        progress = ground (arith, t.progress, s.moves moved);
                      },
                    ),
                  )
              | inr kept ↦
                  let (m', go, (nb₂, ob₂, t)) =
                    loop-Rehashed fuel nwork r.1 nb₁ ob₁ s.valid few
                      (ground (arith, s.passes kept, s.width)) in
                  (
                    m',
                    rw (more, rehash_loop, run, ◌>>=◌, kept) go,
                    (
                      nb₂,
                      ob₂,
                      record {
                        valid = t.valid;
                        same = λ p. omega (arith, t.same p, s.same p);
                        progress = ground (arith, t.progress, s.passes kept);
                      },
                    ),
                  )
            ]
      ]
