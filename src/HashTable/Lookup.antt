-- ===== src/HashTable/Lookup.antt =====
-- `hm_lookup` of hashtable.cpp, with the resizing that goes on meanwhile.
use redis_lite.Base.{
  ℕ, ◌+◌, ◌<◌, ◌≡◌, ◌⊎◌, refl, ap, ◌∙◌, Bool, true, List, count, arith, Option, none, some, inl,
  inr,
}
use redis_lite.HashTable.{HNode, HMap, Chain, hits, h_lookup, node_at, hm_lookup, hm_help_rehashing}
use redis_lite.HashTable.Buckets.{chain_nodes}
use redis_lite.HashTable.Rehash.{SameNodes}
use redis_lite.HashTable.Shape.{
  IsMap, newer-IsTabOrNull, older-IsTabOrNull, h_lookup-Searched_null, hm_help_rehashing-Helped,
}

module _ {ℓ} {A : Type ℓ} where
  -- How many nodes of both tables pass a test.
  abbrev pub tally : List (Chain A) → List (Chain A) → (HNode A → Bool) → ℕ
  tally nb ob p = count p (chain_nodes nb) + count p (chain_nodes ob)

  -- NULL if no node matches, otherwise a node of the map that does.
  abbrev pub Answers :
      List (Chain A) → List (Chain A) → (HNode A → Bool) → Option (HNode A) → Type ℓ
  Answers nb ob hit o =
      ((o ≡ none) × (tally nb ob hit ≡ 0))
      ⊎ ((node : HNode A) × (o ≡ some node)
          × (hit node ≡ true)
          × ((p : HNode A → Bool) → p node ≡ true → 0 < tally nb ob p))

  pub record LookedUp (nb ob : List (Chain A)) (hit : HNode A → Bool)
      (r : Option (HNode A) × HMap A) (nb' ob' : List (Chain A)) : Type ℓ where
    pub valid : IsMap r.1 nb' ob'
    pub same : SameNodes nb ob nb' ob'
    pub answer : Answers nb ob hit r.0

  -- Steps of the function, by what the searches find.
  module _ (m m' : HMap A) (hcode : ℕ) (eq : HNode A → Bool)
      (help : hm_help_rehashing m ≡ some m') where
    lookup_newer :
        (l : ℕ × ℕ) (node : HNode A)
        → h_lookup m'.newer hcode eq ≡ some (some l)
        → node_at m'.newer l ≡ some node
        → hm_lookup m hcode eq ≡ some (some node, m')
    unfolding hm_lookup
    lookup_newer l node e f = ground arith

    lookup_older :
        (l : ℕ × ℕ) (node : HNode A)
        → h_lookup m'.newer hcode eq ≡ some none
        → h_lookup m'.older hcode eq ≡ some (some l)
        → node_at m'.older l ≡ some node
        → hm_lookup m hcode eq ≡ some (some node, m')
    unfolding hm_lookup
    lookup_older l node d e f = ground arith

    lookup_none :
        h_lookup m'.newer hcode eq ≡ some none
        → h_lookup m'.older hcode eq ≡ some none
        → hm_lookup m hcode eq ≡ some (none, m')
    unfolding hm_lookup
    lookup_none d e = ground arith

  -- On a valid map `hm_lookup` does not fault; the map stays valid with the same nodes, and the
  -- answer is NULL exactly if no node matches, otherwise a node of the map that matches.
  pub hm_lookup-LookedUp :
      {m : HMap A} {nb ob : List (Chain A)} (hcode : ℕ) (eq : HNode A → Bool)
      → IsMap m nb ob
      → (r : Option (HNode A) × HMap A) × (hm_lookup m hcode eq ≡ some r)
        × ((nb' : List (Chain A)) × (ob' : List (Chain A)) × LookedUp nb ob
              (hits hcode eq)
              r
              nb'
              ob')
  hm_lookup-LookedUp {m} {nb} {ob} hcode eq v =
      let (m', help, (nb', ob', s)) = hm_help_rehashing-Helped v in
      let (r₁, run₁, s₁) =
        h_lookup-Searched_null m'.newer nb' hcode eq (newer-IsTabOrNull s.valid) in
      let (r₂, run₂, s₂) =
        h_lookup-Searched_null m'.older ob' hcode eq (older-IsTabOrNull s.valid) in
      elim s₁ [
        | inr (l, e, (node, k)) ↦ (
          (some node, m'),
          lookup_newer m m' hcode eq help l node (run₁ ∙ ap some e) k.here,
          (
            nb',
            ob',
            record {
              valid = s.valid;
              same = s.same;
              answer = inr (node, refl, k.matches, λ p h. omega (arith, s.same p, k.member p h));
            },
          ),
        )
        | inl (e₁, zero₁) ↦ elim s₂ [
          | inr (l, e, (node, k)) ↦ (
            (some node, m'),
            lookup_older m m' hcode eq help l node (run₁ ∙ ap some e₁) (run₂ ∙ ap some e) k.here,
            (
              nb',
              ob',
              record {
                valid = s.valid;
                same = s.same;
                answer = inr (node, refl, k.matches, λ p h. omega (arith, s.same p, k.member p h));
              },
            ),
          )
          | inl (e₂, zero₂) ↦ (
            (none, m'),
            lookup_none m m' hcode eq help (run₁ ∙ ap some e₁) (run₂ ∙ ap some e₂),
            (
              nb',
              ob',
              record {
                valid = s.valid;
                same = s.same;
                answer = inl (refl, omega (arith, s.same (hits hcode eq)));
              },
            ),
          )
        ]
      ]
