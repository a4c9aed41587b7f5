-- ===== src/HashTable/Search.antt =====
-- `h_lookup` and `h_detach` of hashtable.cpp: searching one table, and taking the found node out of it.
use redis_lite.Base.{
  ℕ, ◌+◌, ◌-◌, ◌<◌, ◌≡◌, ◌⊎◌, refl, ◌∙◌, Bool, true, List, [], ◌∷◌, length, get_elem?, set,
  get_or-set, length-set, get_elem?-get_or, count, to_nat, arith, Option, none, some, Bool-cases,
  Option-cases, inl, inr, ◌>>=◌, ◌==◌, Returns,
}
use Prim.Native.Nat.{bit_and}
use redis_lite.HashTable.{HNode, HTab, Chain, hits, find_link, unlink, h_lookup, h_detach, node_at}
use redis_lite.HashTable.Buckets.{
  chain_nodes, bucket, count-chain_nodes-set, count-bucket-le, count-chain_nodes_zero,
  count-implies, find_link-none, find_link-some,
}
use redis_lite.HashTable.Valid.{IsTab, any_node, is_misplaced, home-lt}

module _ {ℓ} {A : Type ℓ} where
  -- `t'` with the array `b'` is `t` with the array `b` less one `node`.
  pub record IsWithout (t : HTab A) (b : List (Chain A)) (node : HNode A) (t' : HTab A)
      (b' : List (Chain A)) : Type ℓ where
    pub valid : IsTab t' b'
    pub mask : t'.mask ≡ t.mask
    pub rest :
        (p : HNode A → Bool) → count p (chain_nodes b') + to_nat (p node) ≡ count p (chain_nodes b)
    pub empties : (i : ℕ) → bucket b i ≡ [] → bucket b' i ≡ []

  bucket-unlink_empty : (c : Chain A) (i : ℕ) → c ≡ [] → unlink c i ≡ []
  unfolding unlink
  bucket-unlink_empty [] i e = refl
  bucket-unlink_empty (x ∷ c) i e = cc

  pub h_detach-IsWithout :
      (t : HTab A) (b : List (Chain A)) (pos i : ℕ) (node : HNode A)
      → IsTab t b
      → pos < length b
      → get_elem? (bucket b pos) i ≡ some node
      → ((p : HNode A → Bool)
          → count p (unlink (bucket b pos) i) + to_nat (p node) ≡ count p (bucket b pos))
      → (t' : HTab A) × (h_detach t (pos, i) ≡ some (node, t'))
        × ((b' : List (Chain A)) × IsWithout t b node t' b')
  unfolding h_detach
  h_detach-IsWithout t b pos i node v h at rest =
      let c = unlink (bucket b pos) i in
      let total = λ (p : HNode A → Bool). count-chain_nodes-set p b pos c h in
      (
        record { tab = some (set b pos c); mask = t.mask; size = t.size - 1 },
        rw (v.array, ◌>>=◌, get_elem?-get_or b pos [] h, at) refl,
        (
          set b pos c,
          record {
            valid = record {
              array = refl;
              width = length-set b pos c ∙ v.width;
              wide = v.wide;
              power = v.power;
              sized = omega (arith, v.sized, total any_node, rest any_node);
              placed = λ j.
                  rw (get_or-set b pos j c [] h)
                    (ground (arith, v.placed j, rest (is_misplaced t.mask j)));
            };
            mask = refl;
            rest = λ p. omega (arith, total p, rest p);
            empties = λ j e.
                rw (get_or-set b pos j c [] h)
                  (ground (arith, bucket-unlink_empty (bucket b pos) i));
          },
        ),
      )

  -- What a link leads to: a node of the table that matches, and can be taken out.
  pub record IsLink (t : HTab A) (b : List (Chain A)) (hit : HNode A → Bool) (l : ℕ × ℕ)
      (node : HNode A) : Type ℓ where
    pub here : node_at t l ≡ some node
    pub matches : hit node ≡ true
    pub member : (p : HNode A → Bool) → p node ≡ true → 0 < count p (chain_nodes b)
    pub detach :
        (t' : HTab A) × (h_detach t l ≡ some (node, t'))
        × ((b' : List (Chain A)) × IsWithout t b node t' b')

  -- The search found no node, and none matches; or it found a link to one.
  abbrev pub Searched : HTab A → List (Chain A) → (HNode A → Bool) → Option (ℕ × ℕ) → Type ℓ
  Searched t b hit r =
      ((r ≡ none) × (count hit (chain_nodes b) ≡ 0))
      ⊎ ((l : ℕ × ℕ) × (r ≡ some l) × ((node : HNode A) × IsLink t b hit l node))

  -- A node of another bucket is not the one that is looked for.
  elsewhere :
      (t : HTab A) (b : List (Chain A)) (hcode : ℕ) (eq : HNode A → Bool)
      → IsTab t b
      → count (hits hcode eq) (bucket b (bit_and hcode t.mask)) ≡ 0
      → count (hits hcode eq) (chain_nodes b) ≡ 0
  elsewhere t b hcode eq v e =
      let pos = bit_and hcode t.mask in
      count-chain_nodes_zero (hits hcode eq) b λ i. elim (Bool-cases (pos == i)) [
        | inl same ↦ let p : pos ≡ i = ground arith in rw (← p) e
        | inr other ↦
            let le =
              count-implies (hits hcode eq) (is_misplaced t.mask i) (bucket b i)
                (λ x hit. ground arith) in
            omega (arith, v.placed i)
      ]

  h_lookup_step :
      (t : HTab A) (b : List (Chain A)) (hcode : ℕ) (eq : HNode A → Bool)
      → IsTab t b
      → h_lookup t hcode eq
        ≡ some (
            find_link (hits hcode eq) (bucket b (bit_and hcode t.mask)) >>= λ i.
            some (bit_and hcode t.mask, i))
  unfolding h_lookup
  h_lookup_step t b hcode eq v =
      rw (v.array, get_elem?-get_or b (bit_and hcode t.mask) [] (home-lt t b hcode v))

  node_at_step :
      (t : HTab A) (b : List (Chain A)) (pos i : ℕ)
      → IsTab t b
      → pos < length b
      → node_at t (pos, i) ≡ get_elem? (bucket b pos) i
  unfolding node_at
  node_at_step t b pos i v h = rw (v.array, ◌>>=◌, get_elem?-get_or b pos [] h)

  -- Searching a table does not fault.
  pub h_lookup-Searched :
      (t : HTab A) (b : List (Chain A)) (hcode : ℕ) (eq : HNode A → Bool)
      → IsTab t b
      → Returns (Searched t b (hits hcode eq)) (h_lookup t hcode eq)
  h_lookup-Searched t b hcode eq v =
      let pos = bit_and hcode t.mask in
      let h = home-lt t b hcode v in
      let c = bucket b pos in
      let hit = hits hcode eq in
      rw (h_lookup_step t b hcode eq v) (elim (Option-cases (find_link hit c)) [
        | inl n ↦
            rw (n, ◌>>=◌) (_, refl, inl (refl, elsewhere t b hcode eq v (find_link-none hit c n)))
        | inr (i, found) ↦
            let (node, here, ok, rest) = find_link-some hit c i found in
            rw (found, ◌>>=◌)
              (
                _,
                refl,
                inr (
                  (pos, i),
                  refl,
                  (
                    node,
                    record {
                      here = node_at_step t b pos i v h ∙ here;
                      matches = ok;
                      member = λ p e. ground (arith, rest p, count-bucket-le p b pos);
                      detach = h_detach-IsWithout t b pos i node v h here rest;
                    },
                  ),
                ),
              )
      ])
