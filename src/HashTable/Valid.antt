-- ===== src/HashTable/Valid.antt =====
-- hashtable.cpp: the invariant of one HTab, and the single-table operations.
use redis_lite.Base.{
  ℕ, ◌+◌, ◌-◌, ◌<◌, ◌≡◌, refl, ◌∙◌, Bool, true, List, [], ◌∷◌, length, set, replicate, get_or-set,
  get_or-replicate, length-set, length-replicate, get_elem?-get_or, count, to_nat, arith, some,
  ◌>>=◌, ◌==◌, Returns, lt→ltb,
}
use Prim.Native.Nat.{bit_and}
use mathlib.Core.Bool.{not}
use redis_lite.Base.Bits.{bit_and-le}
use redis_lite.HashTable.{HNode, HTab, Chain, h_init, h_insert}
use redis_lite.HashTable.Buckets.{chain_nodes, bucket, count-chain_nodes-set, chain_nodes-replicate}

module _ {ℓ} {A : Type ℓ} where
  abbrev pub any_node : HNode A → Bool
  any_node _ = true

  -- The nodes that do not belong into bucket `i`.
  abbrev pub is_misplaced : ℕ → ℕ → HNode A → Bool
  is_misplaced mask i n = not (bit_and n.hcode mask == i)

  -- A table with the array `b`: the mask fits and is not 0, its width is a power of two by the program's own
  -- test, the size is right, and each node is in the bucket of its hash code.
  pub record IsTab (t : HTab A) (b : List (Chain A)) : Type ℓ where
    pub array : t.tab ≡ some b
    pub width : length b ≡ t.mask + 1
    pub wide : 0 < t.mask
    pub power : bit_and t.mask (t.mask + 1) ≡ 0
    pub sized : t.size ≡ count any_node (chain_nodes b)
    pub placed : (i : ℕ) → count (is_misplaced t.mask i) (bucket b i) ≡ 0

  pub home-lt : (t : HTab A) (b : List (Chain A)) (h : ℕ) → IsTab t b → bit_and h t.mask < length b
  home-lt t b h v = omega (arith, v.width, bit_and-le h t.mask)

  pub h_init-IsTab :
      (n : ℕ)
      → 0 < n
      → bit_and n (n + 1) ≡ 0
      → Returns (λ t. (t.mask ≡ n) × IsTab t (replicate (n + 1) [])) (h_init {A = A} (n + 1))
  unfolding h_init
  h_init-IsTab n wide p =
      let less : n + 1 - 1 ≡ n = omega arith in
      rw (less, p, lt→ltb 0 (n + 1) (omega arith))
        (
          _,
          refl,
          (
            refl,
            record {
              array = refl;
              width = length-replicate (n + 1) [];
              wide = wide;
              power = p;
              sized = rw (chain_nodes-replicate {A = A} (n + 1)) refl;
              placed = λ i. rw (get_or-replicate {A = Chain A} (n + 1) i []) refl;
            },
          ),
        )

  -- Inserting into a table does not fault and adds the node.
  pub h_insert-IsTab :
      (t : HTab A) (b : List (Chain A)) (node : HNode A)
      → IsTab t b
      → Returns
          (λ t'.
            (t'.mask ≡ t.mask)
            × ((b' : List (Chain A)) × IsTab t' b'
                × ((p : HNode A → Bool)
                    → count p (chain_nodes b') ≡ to_nat (p node) + count p (chain_nodes b))))
          (h_insert t node)
  unfolding h_insert
  h_insert-IsTab t b node v =
      let pos = bit_and node.hcode t.mask in
      let h = home-lt t b node.hcode v in
      let c = node ∷ bucket b pos in
      let total = λ (p : HNode A → Bool). count-chain_nodes-set p b pos c h in
      rw (v.array, ◌>>=◌, get_elem?-get_or b pos [] h)
        (
          _,
          refl,
          (
            refl,
            (
              set b pos c,
              record {
                array = refl;
                width = length-set b pos c ∙ v.width;
                wide = v.wide;
                power = v.power;
                sized = omega (arith, v.sized, total any_node);
                placed = λ i. rw (get_or-set b pos i c [] h) (ground (arith, v.placed i));
              },
              λ p. omega (arith, total p),
            ),
          ),
        )
