-- ===== src/HashTable/Insert.antt =====
-- `hm_insert` of hashtable.cpp, with the first allocation and the resizing that it may start.
use redis_lite.Base.{
  ◌+◌, ◌*◌, ◌≡◌, refl, ap, Bool, true, false, List, [], replicate, to_nat, arith, none, some, inl,
  inr, Bool-cases, leb,
}
use redis_lite.Base.Bits.{bit_and_double}
use redis_lite.HashTable.{
  HNode, HTab, HMap, Chain, h_init, h_insert, first_init, grow, hm_trigger_rehashing, hm_insert,
  hm_help_rehashing, hm_size, k_max_load_factor,
}
use redis_lite.HashTable.Buckets.{chain_nodes, chain_nodes-replicate}
use redis_lite.HashTable.Valid.{IsTab, any_node, h_init-IsTab, h_insert-IsTab}
use redis_lite.HashTable.Shape.{
  IsMap, unused, single, double, hm_help_rehashing-Helped, size-IsTabOrNull, newer-IsTabOrNull,
  older-IsTabOrNull,
}
use redis_lite.HashTable.Lookup.{tally}
use redis_lite.HashTable.Delete.{with_newer}

module _ {ℓ} {A : Type ℓ} where
  -- The map stays valid and holds one more `node`.
  pub record Inserted (nb ob : List (Chain A)) (node : HNode A) (m' : HMap A)
      (nb' ob' : List (Chain A)) : Type ℓ where
    pub valid : IsMap m' nb' ob'
    pub more : (p : HNode A → Bool) → tally nb' ob' p ≡ to_nat (p node) + tally nb ob p

  -- A map with a newer table and the counts of the given arrays.
  pub record Started (nb ob : List (Chain A)) (m' : HMap A) (nb' : List (Chain A)) : Type ℓ where
    pub valid : IsMap m' nb' ob
    pub table : IsTab m'.newer nb'
    pub same : (p : HNode A → Bool) → tally nb' ob p ≡ tally nb ob p

  some_newer : (m : HMap A) (b : List (Chain A)) → m.newer.tab ≡ some b → first_init m ≡ some m
  unfolding first_init
  some_newer m b e = ground arith

  null_newer :
      (m : HMap A) (t : HTab A)
      → m.newer.tab ≡ none
      → h_init 4 ≡ some t
      → first_init m ≡ some (record m { newer = t })
  unfolding first_init
  null_newer m t e f = ground arith

  first_init-Started :
      {m : HMap A} {nb ob : List (Chain A)}
      → IsMap m nb ob
      → (m' : HMap A) × (first_init m ≡ some m') × ((nb' : List (Chain A)) × Started nb ob m' nb')
  first_init-Started {m} {nb} {ob} (single v q s) = (
    m,
    some_newer m nb v.array,
    (nb, record { valid = single v q s; table = v; same = λ p. refl }),
  )
  first_init-Started {m} {nb} {ob} (double v) = (
    m,
    some_newer m nb v.newer.array,
    (nb, record { valid = double v; table = v.newer; same = λ p. refl }),
  )
  first_init-Started {m} {nb} {ob} (unused p q r s) =
      let (t, run, (e, v)) = h_init-IsTab 3 (omega arith) refl in
      (
        _,
        null_newer m t (ap (λ (t : HTab A). t.tab) p) run,
        (_, record { valid = single v q s; table = v; same = λ p. rw r refl }),
      )

  -- The test of the load factor, and what follows it.
  module _ (m : HMap A) where
    grow_busy : (b : List (Chain A)) → m.older.tab ≡ some b → grow m ≡ some m
    unfolding grow
    grow_busy b e = ground arith

    grow_not :
        m.older.tab ≡ none
        → leb ((m.newer.mask + 1) * k_max_load_factor) m.newer.size ≡ false
        → grow m ≡ some m
    unfolding grow
    grow_not e f = ground arith

    grow_full :
        (t : HTab A)
        → m.older.tab ≡ none
        → leb ((m.newer.mask + 1) * k_max_load_factor) m.newer.size ≡ true
        → h_init ((m.newer.mask + 1) * 2) ≡ some t
        → grow m ≡ some (record { newer = t; older = m.newer; migrate_pos = 0 })
    unfolding grow hm_trigger_rehashing
    grow_full t e f g = ground arith

  -- A table of twice the width.
  double_init :
      (t : HTab A) (b : List (Chain A))
      → IsTab t b
      → (t' : HTab A) × (h_init ((t.mask + 1) * 2) ≡ some t')
        × ((b' : List (Chain A)) × IsTab t' b' × (chain_nodes b' ≡ []))
  double_init t b v =
      let n = 2 * t.mask + 1 in
      let arg : (t.mask + 1) * 2 ≡ n + 1 = omega arith in
      let next : 2 * t.mask + 2 ≡ n + 1 = omega arith in
      let (t', run, (e, w)) =
        h_init-IsTab n (omega arith) (rw next at (bit_and_double t.mask v.power)) in
      (t', rw arg run, (replicate (n + 1) [], w, chain_nodes-replicate (n + 1)))

  pub record Grown (nb ob : List (Chain A)) (m' : HMap A) (nb' ob' : List (Chain A)) : Type ℓ where
    pub valid : IsMap m' nb' ob'
    pub same : (p : HNode A → Bool) → tally nb' ob' p ≡ tally nb ob p

  grow-Grown :
      {m : HMap A} {nb ob : List (Chain A)}
      → IsMap m nb ob
      → IsTab m.newer nb
      → (m' : HMap A) × (grow m ≡ some m')
        × ((nb' : List (Chain A)) × (ob' : List (Chain A)) × Grown nb ob m' nb' ob')
  grow-Grown {m} {nb} {ob} (double v) w =
      (m, grow_busy m ob v.older.array, (nb, ob, record { valid = double v; same = λ p. refl }))
  grow-Grown {m} {nb} {ob} (unused p q r s) w =
      let e = w.array in let f : m.newer.tab ≡ none = ap (λ (t : HTab A). t.tab) p in cc
  grow-Grown {m} {nb} {ob} (single v q s) w =
      let null : m.older.tab ≡ none = ap (λ (t : HTab A). t.tab) q in
      elim (Bool-cases (leb ((m.newer.mask + 1) * k_max_load_factor) m.newer.size)) [
        | inr low ↦
            (m, grow_not m null low, (nb, ob, record { valid = single v q s; same = λ p. refl }))
        | inl full ↦
            let (t, run, (b, u, none_yet)) = double_init m.newer nb v in
            (
              _,
              grow_full m t null full run,
              (
                b,
                nb,
                record {
                  valid = double (record { newer = u; older = v; passed = λ i h. elim h [ ] });
                  same = λ p. rw (none_yet, s) (omega arith);
                },
              ),
            )
      ]

  insert_steps :
      (m m₁ m₂ m₃ : HMap A) (t : HTab A) (node : HNode A)
      → first_init m ≡ some m₁
      → h_insert m₁.newer node ≡ some t
      → grow (record m₁ { newer = t }) ≡ some m₂
      → hm_help_rehashing m₂ ≡ some m₃
      → hm_insert m node ≡ some m₃
  unfolding hm_insert
  insert_steps m m₁ m₂ m₃ t node a b c d = ground arith

  -- On a valid map `hm_insert` neither faults nor fails its assertion, and the map stays valid
  -- with exactly one more node.
  pub hm_insert-Inserted :
      {m : HMap A} {nb ob : List (Chain A)} (node : HNode A)
      → IsMap m nb ob
      → (m' : HMap A) × (hm_insert m node ≡ some m')
        × ((nb' : List (Chain A)) × (ob' : List (Chain A)) × Inserted nb ob node m' nb' ob')
  hm_insert-Inserted {m} {nb} {ob} node v =
      let (m₁, run₁, (nb₁, s₁)) = first_init-Started v in
      let (t, run₂, (mask, (nb₂, w, more))) = h_insert-IsTab m₁.newer nb₁ node s₁.table in
      let (m₂, run₃, (nb₃, ob₃, s₃)) = grow-Grown (with_newer t nb₂ s₁.valid w) w in
      let (m₃, run₄, (nb₄, ob₄, s₄)) = hm_help_rehashing-Helped s₃.valid in
      (
        m₃,
        insert_steps m m₁ m₂ m₃ t node run₁ run₂ run₃ run₄,
        (
          nb₄,
          ob₄,
          record {
            valid = s₄.valid;
            more = λ p. omega (arith, s₄.same p, s₃.same p, more p, s₁.same p);
          },
        ),
      )

  -- `hm_size` counts the nodes of a valid map.
  pub hm_size-tally :
      {m : HMap A} {nb ob : List (Chain A)} → IsMap m nb ob → hm_size m ≡ tally nb ob any_node
  unfolding hm_size
  hm_size-tally {m} {nb} {ob} v = omega (
    arith,
    size-IsTabOrNull m.newer nb (newer-IsTabOrNull v),
    size-IsTabOrNull m.older ob (older-IsTabOrNull v),
  )
