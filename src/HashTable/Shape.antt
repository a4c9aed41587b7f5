-- ===== src/HashTable/Shape.antt =====
-- The states of an HMap of hashtable.h, and `hm_help_rehashing` on all of them.
use redis_lite.Base.{
  ℕ, ◌+◌, ◌≡◌, ◌⊎◌, refl, Bool, true, false, List, [], length, count, arith, none, some, Bool-cases,
  inl, inr, ◌==◌, Returns,
}
use redis_lite.HashTable.{
  HNode, HTab, HMap, Chain, hits, h_lookup, rehash_loop, discard, hm_help_rehashing, bucket_count,
  k_rehashing_work, no_tab,
}
use redis_lite.HashTable.Buckets.{chain_nodes, count-implies}
use redis_lite.HashTable.Valid.{IsTab, any_node}
use redis_lite.HashTable.Search.{Searched, h_lookup-Searched}
use redis_lite.HashTable.Rehash.{IsMigrating, SameNodes, loop-Rehashed}

module _ {ℓ} {A : Type ℓ} where
  -- A map that holds nothing yet, one whose nodes are in one table, or one that is resizing.
  pub data IsMap (m : HMap A) (nb ob : List (Chain A)) : Type ℓ where
    unused : m.newer ≡ no_tab → m.older ≡ no_tab → nb ≡ [] → ob ≡ [] → IsMap m nb ob
    single : IsTab m.newer nb → m.older ≡ no_tab → ob ≡ [] → IsMap m nb ob
    double : IsMigrating m nb ob → IsMap m nb ob

  abbrev pub IsTabOrNull : HTab A → List (Chain A) → Type ℓ
  IsTabOrNull t b = IsTab t b ⊎ ((t ≡ no_tab) × (b ≡ []))

  pub newer-IsTabOrNull :
      {m : HMap A} {nb ob : List (Chain A)} → IsMap m nb ob → IsTabOrNull m.newer nb
  newer-IsTabOrNull (unused p _ q _) = inr (p, q)
  newer-IsTabOrNull (single v _ _) = inl v
  newer-IsTabOrNull (double v) = inl v.newer

  pub older-IsTabOrNull :
      {m : HMap A} {nb ob : List (Chain A)} → IsMap m nb ob → IsTabOrNull m.older ob
  older-IsTabOrNull (unused _ p _ q) = inr (p, q)
  older-IsTabOrNull (single _ p q) = inr (p, q)
  older-IsTabOrNull (double v) = inl v.older

  pub h_lookup-Searched_null :
      (t : HTab A) (b : List (Chain A)) (hcode : ℕ) (eq : HNode A → Bool)
      → IsTabOrNull t b
      → Returns (Searched t b (hits hcode eq)) (h_lookup t hcode eq)
  h_lookup-Searched_null t b hcode eq (inl v) = h_lookup-Searched t b hcode eq v
  h_lookup-Searched_null t b hcode eq (inr (p, q)) =
      (none, rw p (unfold h_lookup in refl), inl (refl, rw q refl))

  pub size-IsTabOrNull :
      (t : HTab A) (b : List (Chain A)) → IsTabOrNull t b → t.size ≡ count any_node (chain_nodes b)
  size-IsTabOrNull t b (inl v) = v.sized
  size-IsTabOrNull t b (inr (p, q)) = rw (p, q) refl

  -- What `hm_help_rehashing` does: the map stays valid with the same nodes, and afterwards either
  -- no old node is left or `k_rehashing_work` of them have been moved.
  pub record Helped (m : HMap A) (nb ob : List (Chain A)) (m' : HMap A) (nb' ob' : List (Chain A))
      : Type ℓ where
    pub valid : IsMap m' nb' ob'
    pub same : SameNodes nb ob nb' ob'
    pub progress : (m'.older.size ≡ 0) ⊎ (m'.older.size + k_rehashing_work ≡ m.older.size)

  idle : (m : HMap A) → m.older ≡ no_tab → hm_help_rehashing m ≡ some m
  unfolding hm_help_rehashing rehash_loop discard bucket_count
  idle m e = ground arith

  empty_counts :
      (p : HNode A → Bool) (b : List (Chain A))
      → count any_node (chain_nodes b) ≡ 0
      → count p (chain_nodes b) ≡ 0
  empty_counts p b e = omega (arith, count-implies p any_node (chain_nodes b) (λ x h. refl))

  discard_done :
      (m : HMap A) (ob : List (Chain A))
      → m.older.tab ≡ some ob
      → (m.older.size == 0) ≡ true
      → discard m ≡ record m { older = no_tab }
  unfolding discard
  discard_done m ob e f = ground arith

  discard_more :
      (m : HMap A) (ob : List (Chain A))
      → m.older.tab ≡ some ob
      → (m.older.size == 0) ≡ false
      → discard m ≡ m
  unfolding discard
  discard_more m ob e f = ground arith

  discard-IsMap :
      (m : HMap A) (nb ob : List (Chain A))
      → IsMigrating m nb ob
      → (ob' : List (Chain A)) × IsMap (discard m) nb ob'
        × SameNodes nb ob nb ob'
        × ((discard m).older.size ≡ m.older.size)
  discard-IsMap m nb ob v = elim (Bool-cases (m.older.size == 0)) [
    | inl done ↦
        let e : discard m ≡ record m { older = no_tab } = discard_done m ob v.older.array done in
        rw e (
          [],
          single v.newer refl refl,
          λ p. omega (arith, v.older.sized, empty_counts p ob (ground arith)),
          ground arith,
        )
    | inr more ↦ rw (discard_more m ob v.older.array more) (ob, double v, λ p. refl, refl)
  ]

  -- Helping to resize never faults and loses no node.
  pub hm_help_rehashing-Helped :
      {m : HMap A} {nb ob : List (Chain A)}
      → IsMap m nb ob
      → (m' : HMap A) × (hm_help_rehashing m ≡ some m')
        × ((nb' : List (Chain A)) × (ob' : List (Chain A)) × Helped m nb ob m' nb' ob')
  hm_help_rehashing-Helped {m} {nb} {ob} (unused p q r s) = (
    m,
    idle m q,
    (nb, ob, record { valid = unused p q r s; same = λ p. refl; progress = inl (rw q refl) }),
  )
  hm_help_rehashing-Helped {m} {nb} {ob} (single v q r) = (
    m,
    idle m q,
    (nb, ob, record { valid = single v q r; same = λ p. refl; progress = inl (rw q refl) }),
  )
  hm_help_rehashing-Helped {m} {nb} {ob} (double v) =
      let fuel = k_rehashing_work + bucket_count m.older + 1 in
      let width : bucket_count m.older ≡ length ob =
        unfold bucket_count in ground (arith, v.older.array) in
      let (m₁, run, (nb₁, ob₁, s)) = loop-Rehashed fuel 0 m nb ob v (omega arith) (omega arith) in
      let (ob₂, valid, same, size) = discard-IsMap m₁ nb₁ ob₁ s.valid in
      (
        discard m₁,
        unfold hm_help_rehashing in rw run refl,
        (
          nb₁,
          ob₂,
          record {
            valid = valid;
            same = λ p. omega (arith, same p, s.same p);
            progress = ground (arith, s.progress);
          },
        ),
      )
