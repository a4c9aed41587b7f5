-- ===== src/HashTable/Buckets.antt =====
-- hashtable.cpp: what an array of chains holds, and what writing one chain does to that.
use redis_lite.Base.{
  ℕ, zero, suc, ◌+◌, ◌≤◌, ◌<◌, ◌≡◌, refl, Bool, true, List, [], ◌∷◌, ◌++◌, length, get_or,
  get_elem?, set, replicate, count, count-append, to_nat, arith, none, some, Bool-cases,
  Option-cases, inl, inr,
}
use redis_lite.HashTable.{HNode, Chain, find_link, unlink}

module _ {ℓ} {A : Type ℓ} where
  -- All nodes, bucket by bucket.
  abbrev pub chain_nodes : List (Chain A) → Chain A
  chain_nodes [] = []
  chain_nodes (c ∷ b) = c ++ chain_nodes b

  abbrev pub bucket : List (Chain A) → ℕ → Chain A
  bucket b i = get_or b i []

  pub count-chain_nodes-set :
      (p : HNode A → Bool) (b : List (Chain A)) (i : ℕ) (c : Chain A)
      → i < length b
      → count p (chain_nodes (set b i c)) + count p (bucket b i)
        ≡ count p (chain_nodes b) + count p c
  count-chain_nodes-set p [] i c h = elim h [ ]
  count-chain_nodes-set p (d ∷ b) zero c h =
      omega (arith, count-append p c (chain_nodes b), count-append p d (chain_nodes b))
  count-chain_nodes-set p (d ∷ b) (suc i) c h = omega (
    arith,
    count-append p d (chain_nodes (set b i c)),
    count-append p d (chain_nodes b),
    count-chain_nodes-set p b i c (omega arith),
  )

  pub count-bucket-le :
      (p : HNode A → Bool) (b : List (Chain A)) (i : ℕ)
      → count p (bucket b i) ≤ count p (chain_nodes b)
  count-bucket-le p [] i = omega arith
  count-bucket-le p (d ∷ b) zero = omega (arith, count-append p d (chain_nodes b))
  count-bucket-le p (d ∷ b) (suc i) =
      omega (arith, count-append p d (chain_nodes b), count-bucket-le p b i)

  -- What is in no bucket is nowhere.
  pub count-chain_nodes_zero :
      (p : HNode A → Bool) (b : List (Chain A))
      → ((i : ℕ) → count p (bucket b i) ≡ 0)
      → count p (chain_nodes b) ≡ 0
  count-chain_nodes_zero p [] h = refl
  count-chain_nodes_zero p (d ∷ b) h =
      omega
        (arith, count-append p d (chain_nodes b), h 0, count-chain_nodes_zero p b (λ i. h (suc i)))

  pub chain_nodes-replicate : (n : ℕ) → chain_nodes (replicate n []) ≡ []
  chain_nodes-replicate zero = refl
  chain_nodes-replicate (suc n) = chain_nodes-replicate n

  pub count-implies :
      (p q : HNode A → Bool) (c : Chain A)
      → ((x : HNode A) → p x ≡ true → q x ≡ true)
      → count p c ≤ count q c
  count-implies p q [] h = omega arith
  count-implies p q (x ∷ c) h = elim (Bool-cases (p x)) [
    | inl e ↦ rw (e, h x e) (omega (arith, count-implies p q c h))
    | inr e ↦ rw e (omega (arith, count-implies p q c h))
  ]

  pub find_link-none :
      (hit : HNode A → Bool) (c : Chain A) → find_link hit c ≡ none → count hit c ≡ 0
  unfolding find_link
  find_link-none hit [] h = refl
  find_link-none hit (x ∷ c) h = ground (arith, find_link-none hit c)

  -- A link that is found leads to a node that passes the test; unlinking it takes out just that.
  pub find_link-some :
      (hit : HNode A → Bool) (c : Chain A) (i : ℕ)
      → find_link hit c ≡ some i
      → (x : HNode A) × (get_elem? c i ≡ some x)
        × (hit x ≡ true)
        × ((p : HNode A → Bool) → count p (unlink c i) + to_nat (p x) ≡ count p c)
  unfolding find_link unlink
  find_link-some hit [] i h = cc
  find_link-some hit (x ∷ c) i h = elim (Bool-cases (hit x)) [
    | inl e ↦ let h' = rw e at h in let z : i ≡ 0 = cc in (x, rw z refl, e, λ p. rw z (omega arith))
    | inr e ↦ elim (Option-cases (find_link hit c)) [
      | inl n ↦ let h' = rw (e, n) at h in cc
      | inr (j, found) ↦
          let h' = rw (e, found) at h in
          let z : i ≡ suc j = cc in
          let (y, at, ok, rest) = find_link-some hit c j found in
          (y, rw z at, ok, λ p. rw z (omega (arith, rest p)))
    ]
  ]
