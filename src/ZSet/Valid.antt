-- ===== src/ZSet/Valid.antt =====
-- zset.cpp: the invariant of a sorted set, and `zset_seekge`.
use redis_lite.Base.{
  ℕ, ◌≡◌, inl, inr, refl, ◌∙◌, sym, ap, Bool, true, false, List, [], ◌∷◌, Option, none, some, arith,
  count, to_nat, Bool-cases,
}
use mathlib.Core.Bool.{not}
use redis_lite.Bytes.{Str}
use redis_lite.HashTable.{Chain}
use redis_lite.HashTable.Lookup.{tally}
use redis_lite.Avl.Inorder.{inorder}
use redis_lite.Avl.Rotate.{IsAvl}
use redis_lite.Db.{Entry, Db}
use redis_lite.Db.Lookup.{IsDb}
use redis_lite.Db.Set.{new_entry}
use redis_lite.ZSet.{ZNode, ZSet, dbl_rank, zless_key, zless_nodes, zless, or_else, zset_seekge}
use redis_lite.ZSet.Order.{tuple_less-key_less, key_less_trans}
use redis_lite.ZSet.Search.{IsDown, drop_while, first, seek-first}

-- A node as an entry of a database with its name as the key.
abbrev pub named : Option ZNode → Option (Entry ℕ)
named none = none
named (some n) = some (new_entry 0 n.name [])

-- The map of the set as that of a database without timers.
abbrev pub as_db : ZSet → Db ℕ
as_db z = record {
  db = z.hmap;
  entries = λ p. named (z.nodes p);
  heap = record { items = []; idx = λ p. 0 };
  fresh = z.fresh;
}

-- Each item is less than all that follow.
abbrev pub IsSorted {ℓ} : {A : Type ℓ} → (A → A → Bool) → List A → Type 0
IsSorted less [] = Unit
IsSorted less (x ∷ xs) = (count (λ y. not (less x y)) xs ≡ 0) × IsSorted less xs

-- The map is valid, the tree is balanced, its nodes are in the order of their tuples, and they are
-- those of the map.
pub record IsZSet (z : ZSet) (nb ob : List (Chain ℕ)) : Type 0 where
  pub map : IsDb (as_db z) nb ob
  pub tree : IsAvl z.root
  pub sorted : IsSorted (zless z.nodes) (inorder z.root)
  pub same : (f : ℕ → Bool) → count f (inorder z.root) ≡ tally nb ob (λ n. f n.item)

pub zless_nodes_trans :
    (a b c : Option ZNode)
    → zless_nodes a b ≡ true
    → zless_nodes b c ≡ true
    → zless_nodes a c ≡ true
zless_nodes_trans none none none p q = cc
zless_nodes_trans none none (some c) p q = cc
zless_nodes_trans none (some b) none p q = cc
zless_nodes_trans none (some b) (some c) p q = cc
zless_nodes_trans (some a) none none p q = cc
zless_nodes_trans (some a) none (some c) p q = cc
zless_nodes_trans (some a) (some b) none p q = cc
zless_nodes_trans (some a) (some b) (some c) p q =
    tuple_less-key_less a c.score c.name
    ∙ key_less_trans (dbl_rank a.score) (dbl_rank b.score) (dbl_rank c.score) a.name b.name c.name
        (sym (tuple_less-key_less a b.score b.name) ∙ p)
        (sym (tuple_less-key_less b c.score c.name) ∙ q)

or_else-none : {A : Type 0} (o : Option A) → or_else o none ≡ o
or_else-none none = refl
or_else-none (some a) = refl

-- A tuple that a node is less than, by a node in memory with that tuple.
abbrev pub tuple : ℕ → Str → Option ZNode
tuple score name = some (record { score = score; name = name })

module _ {ℓ} {A : Type ℓ} (less : A → A → Bool) (is_less : A → Bool)
    (trans : (x y : A) → less x y ≡ true → is_less y ≡ true → is_less x ≡ true) where
  all_after :
      (x : A) (ys : List A)
      → is_less x ≡ false
      → count (λ y. not (less x y)) ys ≡ 0
      → count is_less ys ≡ 0
  all_after x [] e h = refl
  all_after x (y ∷ ys) e h = elim (Bool-cases (less x y)) [
    | inl f ↦ elim (Bool-cases (is_less y)) [
      | inl g ↦ absurd (omega (arith, ap to_nat (trans x y f g), ap to_nat e))
      | inr g ↦ omega (arith, h, all_after x ys e (omega (arith, h)), ap to_nat g)
    ]
    | inr f ↦ absurd (omega (arith, h, ap (λ b. to_nat (not b)) f))
  ]

  -- In a sorted list, the items less than another stand first.
  pub sorted-IsDown : (xs : List A) → IsSorted less xs → IsDown is_less xs
  sorted-IsDown [] s = _
  sorted-IsDown (x ∷ xs) s = (λ e. all_after x xs e s.0, sorted-IsDown xs s.1)

-- In a valid sorted set, `zset_seekge` finds the first node, in the order of the tuples, that is not
-- less than the tuple.
pub zset_seekge-first :
    (z : ZSet) (nb ob : List (Chain ℕ)) (score : ℕ) (name : Str)
    → IsZSet z nb ob
    → zset_seekge z score name
      ≡ first (drop_while (λ q. zless_key score name (z.nodes q)) (inorder z.root))
unfolding zset_seekge
zset_seekge-first z nb ob score name v =
    let is_less = λ (q : ℕ). zless_key score name (z.nodes q) in
    seek-first is_less z.root none (
      sorted-IsDown (zless z.nodes) is_less
        (λ x y p q. zless_nodes_trans (z.nodes x) (z.nodes y) (tuple score name) p q)
        (inorder z.root) v.sorted)
    ∙ or_else-none (first (drop_while is_less (inorder z.root)))
