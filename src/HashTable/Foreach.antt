-- ===== src/HashTable/Foreach.antt =====
-- `hm_foreach` of hashtable.cpp, against the traversal of a list.
use redis_lite.Base.{
  ℕ, zero, suc, ◌+◌, ◌≤◌, ◌<◌, ◌≡◌, refl, Bool, true, false, List, [], ◌∷◌, ◌++◌, length, drop,
  get_elem?-get_or, get_or, arith, some, Bool-cases, inl, inr, ◌>>=◌, ◌==◌,
}
use redis_lite.HashTable.{
  HNode, HTab, HMap, Chain, foreach_chain, foreach_buckets, h_foreach, hm_foreach,
}
use redis_lite.HashTable.Buckets.{chain_nodes, bucket}
use redis_lite.HashTable.Shape.{IsMap, IsTabOrNull, newer-IsTabOrNull, older-IsTabOrNull}

drop_step {ℓ} :
    {A : Type ℓ} (xs : List A) (i : ℕ) (d : A)
    → i < length xs
    → drop i xs ≡ get_or xs i d ∷ drop (suc i) xs
drop_step [] i d h = elim h [ ]
drop_step (x ∷ xs) zero d h = refl
drop_step (x ∷ xs) (suc i) d h = drop_step xs i d (omega arith)

drop_all {ℓ} : {A : Type ℓ} (xs : List A) (i : ℕ) → length xs ≤ i → drop i xs ≡ []
drop_all [] zero h = refl
drop_all [] (suc i) h = refl
drop_all (x ∷ xs) zero h = absurd (omega arith)
drop_all (x ∷ xs) (suc i) h = drop_all xs i (omega arith)

module _ {ℓ κ} {A : Type ℓ} {S : Type κ} (f : HNode A → S → Bool × S) where
  -- Goes on with a second walk unless the first was stopped.
  abbrev and_then : Bool × S → (S → Bool × S) → Bool × S
  and_then r g = elim r.0 [ true ↦ g r.1 | false ↦ (false, r.1) ]

  chain_more :
      (x : HNode A) (c : Chain A) (s : S)
      → (f x s).0 ≡ true
      → foreach_chain f (x ∷ c) s ≡ foreach_chain f c (f x s).1
  unfolding foreach_chain
  chain_more x c s e = rw (e, foreach_chain) refl

  chain_stop :
      (x : HNode A) (c : Chain A) (s : S)
      → (f x s).0 ≡ false
      → foreach_chain f (x ∷ c) s ≡ (false, (f x s).1)
  unfolding foreach_chain
  chain_stop x c s e = rw (e, foreach_chain) refl

  foreach_chain-append :
      (c d : Chain A) (s : S)
      → foreach_chain f (c ++ d) s ≡ and_then (foreach_chain f c s) (foreach_chain f d)
  foreach_chain-append [] d s = unfold foreach_chain in refl
  foreach_chain-append (x ∷ c) d s = elim (Bool-cases (f x s).0) [
    | inl more ↦
        rw (chain_more x c s more, chain_more x (c ++ d) s more)
          (foreach_chain-append c d (f x s).1)
    | inr stop ↦ rw (chain_stop x c s stop, chain_stop x (c ++ d) s stop) refl
  ]

  foreach_buckets-chain :
      (n i : ℕ) (b : List (Chain A)) (s : S)
      → i + n ≡ length b
      → foreach_buckets f n i b s ≡ some (foreach_chain f (chain_nodes (drop i b)) s)
  unfolding foreach_buckets
  foreach_buckets-chain zero i b s h =
      rw (drop_all b i (omega arith)) (unfold foreach_chain in refl)
  foreach_buckets-chain (suc n) i b s h =
      let c = bucket b i in
      let next : i + 1 ≡ suc i = omega arith in
      rw
        (
          get_elem?-get_or b i [] (omega arith),
          drop_step b i [] (omega arith),
          foreach_chain-append,
          ◌>>=◌,
        )
        (elim (Bool-cases (foreach_chain f c s).0) [
          | inl more ↦
              rw (more, next)
                (foreach_buckets-chain n (suc i) b (foreach_chain f c s).1 (omega arith))
          | inr stop ↦ rw stop refl
        ])

  h_foreach-chain :
      (t : HTab A) (b : List (Chain A)) (s : S)
      → IsTabOrNull t b
      → h_foreach f t s ≡ some (foreach_chain f (chain_nodes b) s)
  unfolding h_foreach
  h_foreach-chain t b s (inr (p, q)) = rw (p, q) (unfold foreach_chain in refl)
  h_foreach-chain t b s (inl v) = elim (Bool-cases (t.mask == 0)) [
    | inl narrow ↦ absurd (ground (arith, v.wide))
    | inr wide ↦
        rw (wide, v.array, ◌>>=◌)
          (foreach_buckets-chain (t.mask + 1) 0 b s (omega (arith, v.width)))
  ]

  foreach_both :
      (m : HMap A) (c d : Chain A) (s : S)
      → h_foreach f m.newer s ≡ some (foreach_chain f c s)
      → ((s' : S) → h_foreach f m.older s' ≡ some (foreach_chain f d s'))
      → hm_foreach f m s ≡ some (foreach_chain f (c ++ d) s).1
  unfolding hm_foreach
  foreach_both m c d s p q =
      rw (p, foreach_chain-append, ◌>>=◌)
        (elim (Bool-cases (foreach_chain f c s).0) [
          | inl more ↦ rw (more, q) refl
          | inr stop ↦ rw stop refl
        ])

  -- On a valid map `hm_foreach` does not fault: it calls the callback on the nodes of the newer
  -- and then of the older table, each once and in the order of the chains, until one call returns
  -- false.
  pub hm_foreach-chain :
      {m : HMap A} {nb ob : List (Chain A)} (s : S)
      → IsMap m nb ob
      → hm_foreach f m s ≡ some (foreach_chain f (chain_nodes nb ++ chain_nodes ob) s).1
  hm_foreach-chain {m} {nb} {ob} s v =
      foreach_both m (chain_nodes nb) (chain_nodes ob) s
        (h_foreach-chain m.newer nb s (newer-IsTabOrNull v))
        (λ s'. h_foreach-chain m.older ob s' (older-IsTabOrNull v))
