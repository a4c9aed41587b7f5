-- ===== src/ZSet.antt =====
-- zset.h and zset.cpp: the sorted set, a balanced tree and a hash map over the same nodes. A node's
-- address stands for its tree node and its hash node, and a tree node with its parent pointer is
-- found by the address. A double is its 64-bit pattern, and no number is NaN.

pub mod Order
pub mod Search
pub mod Valid
pub mod Sorted
pub mod Locate
pub mod Cut
pub mod Lookup
pub mod Insert
pub mod Update
pub mod Add
pub mod Stored
pub mod Remove
pub mod Clear
use redis_lite.Base.{
  ℕ, zero, suc, ◌+◌, ◌-◌, ◌^◌, Bool, true, false, Option, none, some, ◌>>=◌, ltb, ◌==◌, ◌&&◌, List,
  [], ◌∷◌, if◌then◌else◌, length,
}
use Prim.Native.Nat.{compare, Ordering}
use redis_lite.Base.Memory.{store}
use redis_lite.Bytes.{Str}
use redis_lite.HashTable.{HNode, HMap, hm_lookup, hm_insert, hm_delete, hm_clear}
use redis_lite.Avl.{Tree, leaf, node, PathUp, top, left_of, right_of, avl_init, avl_fix, avl_del}
use redis_lite.Db.{str_hash}

pub record ZNode : Type 0 where
  pub score : ℕ
  pub name : Str

-- `nodes` is the memory of the allocated nodes; `fresh` is the next address that `malloc` gives.
pub record ZSet : Type 0 where
  pub root : Tree ℕ
  pub hmap : HMap ℕ
  pub nodes : ℕ → Option ZNode
  pub fresh : ℕ

-- The order of doubles on their patterns: 0 and -0 are both in the middle.
abbrev pub dbl_rank : ℕ → ℕ
dbl_rank b = if ltb b (2 ^ 63) then 2 ^ 63 + b else 2 ^ 64 - b

-- `min` of zset.cpp
abbrev pub smaller : ℕ → ℕ → ℕ
smaller lhs rhs = if ltb lhs rhs then lhs else rhs

abbrev pub memcmp : ℕ → Str → Str → Ordering
memcmp (suc n) (a ∷ s) (b ∷ t) = elim (compare a b) [
  | Ordering.lt ↦ Ordering.lt
  | Ordering.gt ↦ Ordering.gt
  | Ordering.eq ↦ memcmp n s t
]
memcmp _ _ _ = Ordering.eq

abbrev pub name_less : Str → Str → Ordering → Bool
name_less lhs rhs Ordering.lt = true
name_less lhs rhs Ordering.gt = false
name_less lhs rhs Ordering.eq = ltb (length lhs) (length rhs)

-- The tuple (score, name) of the node against another.
unfoldable pub tuple_less : ZNode → ℕ → Str → Bool
tuple_less z score name =
    if dbl_rank z.score == dbl_rank score
    then name_less z.name name (memcmp (smaller (length z.name) (length name)) z.name name)
    else ltb (dbl_rank z.score) (dbl_rank score)

-- `zless` of a node in memory and a tuple. A freed node is not less.
abbrev pub zless_key : ℕ → Str → Option ZNode → Bool
zless_key score name none = false
zless_key score name (some z) = tuple_less z score name

abbrev pub zless_nodes : Option ZNode → Option ZNode → Bool
zless_nodes lhs none = false
zless_nodes lhs (some z) = zless_key z.score z.name lhs

-- `zless` of two nodes.
abbrev pub zless : (ℕ → Option ZNode) → ℕ → ℕ → Bool
zless nodes lhs rhs = zless_nodes (nodes lhs) (nodes rhs)

module _ {ℓ} {A : Type ℓ} where
  -- The search of `tree_insert`, down to the empty place.
  unfoldable pub descend : (A → Bool) → Tree A → PathUp A → PathUp A
  descend goes_left leaf up = up
  descend goes_left (node l x h c r) up = elim (goes_left x) [
    | true ↦ descend goes_left l (left_of x h c r up)
    | false ↦ descend goes_left r (right_of l x h c up)
  ]

  -- The loop of `zset_seekge`.
  unfoldable pub seek : (A → Bool) → Tree A → Option A → Option A
  seek is_less leaf found = found
  seek is_less (node l x h c r) found = elim (is_less x) [
    | true ↦ seek is_less r found
    | false ↦ seek is_less l (some x)
  ]

abbrev pub or_else {ℓ} : {A : Type ℓ} → Option A → Option A → Option A
or_else none o = o
or_else (some a) o = some a

-- What the pointer to a tree node leads to: the subtree below it and the path above.
unfoldable pub node_at : ℕ → Tree ℕ → PathUp ℕ → Option (Tree ℕ × PathUp ℕ)
node_at p leaf up = none
node_at p (node l x h c r) up =
    or_else (if x == p then some (node l x h c r, up) else none)
      (or_else (node_at p l (left_of x h c r up)) (node_at p r (right_of l x h c up)))

unfoldable pub tree_insert : ZSet → ℕ → Option ZSet
tree_insert z p =
    avl_fix (avl_init p) (descend (λ parent. zless z.nodes p parent) z.root top) >>= λ root.
    some (record z { root = root })

-- `zset->root = avl_del(&node->tree)`
unfoldable pub tree_delete : ZSet → ℕ → Option ZSet
tree_delete z p = node_at p z.root top >>= λ (t, up).
    avl_del (λ q. q == p) t up >>= λ root. some (record z { root = root })

unfoldable pub zset_update : ZSet → ℕ → ℕ → Option ZSet
zset_update z p score = z.nodes p >>= λ n.
    if dbl_rank n.score == dbl_rank score
    then some z
    else (tree_delete z p >>= λ z'.
        tree_insert (record z' { nodes = store z'.nodes p (some (record n { score = score })) }) p)

abbrev pub is_eq : Ordering → Bool
is_eq Ordering.eq = true
is_eq _ = false

-- A freed node has no name.
abbrev pub same_name : Str → Option ZNode → Bool
same_name name none = false
same_name name (some n) =
    (length n.name == length name) && is_eq (memcmp (length n.name) n.name name)

abbrev pub hcmp : ZSet → Str → HNode ℕ → Bool
hcmp z name n = same_name name (z.nodes n.item)

abbrev pub is_leaf : Tree ℕ → Bool
is_leaf leaf = true
is_leaf (node l x h c r) = false

-- The address of the node, with the map after the lookup.
unfoldable pub lookup_name : ZSet → Str → Option (Option ℕ × ZSet)
lookup_name z name = hm_lookup z.hmap (str_hash name) (hcmp z name) >>= λ (found, m). elim found [
  | none ↦ some (none, record z { hmap = m })
  | some n ↦ some (some n.item, record z { hmap = m })
]

unfoldable pub zset_lookup : ZSet → Str → Option (Option ℕ × ZSet)
zset_lookup z name = if is_leaf z.root then some (none, z) else lookup_name z name

-- `znode_new` and the two insertions.
unfoldable pub add_node : ZSet → Str → ℕ → Option ZSet
add_node z name score =
    let p = z.fresh in
    hm_insert z.hmap (record { hcode = str_hash name; item = p }) >>= λ m.
    tree_insert
      (record {
        root = z.root;
        hmap = m;
        nodes = store z.nodes p (some (record { score = score; name = name }));
        fresh = p + 1;
      })
      p

-- `true` if the tuple is new.
unfoldable pub zset_insert : ZSet → Str → ℕ → Option (Bool × ZSet)
zset_insert z name score = zset_lookup z name >>= λ (found, z'). elim found [
  | some p ↦ zset_update z' p score >>= λ z''. some (false, z'')
  | none ↦ add_node z' name score >>= λ z''. some (true, z'')
]

-- The assertion that the map had the node, and the deletion from the tree.
unfoldable pub delete_found : ZSet → ℕ → Option (HNode ℕ) → Option ZSet
delete_found z p none = none
delete_found z p (some n) =
    tree_delete z p >>= λ z'. some (record z' { nodes = store z'.nodes p none })

-- The node's hash code is that of its name.
unfoldable pub zset_delete : ZSet → ℕ → Option ZSet
zset_delete z p = z.nodes p >>= λ n.
    hm_delete z.hmap (str_hash n.name) (hcmp z n.name) >>= λ (found, m).
    delete_found (record z { hmap = m }) p found

unfoldable pub zset_seekge : ZSet → ℕ → Str → Option ℕ
zset_seekge z score name = seek (λ q. zless_key score name (z.nodes q)) z.root none

abbrev pub tree_dispose : Tree ℕ → (ℕ → Option ZNode) → ℕ → Option ZNode
tree_dispose leaf nodes = nodes
tree_dispose (node l x h c r) nodes = store (tree_dispose r (tree_dispose l nodes)) x none

unfoldable pub zset_clear : ZSet → ZSet
zset_clear z = record z { hmap = hm_clear z.hmap; nodes = tree_dispose z.root z.nodes; root = leaf }
