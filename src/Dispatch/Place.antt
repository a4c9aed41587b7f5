-- ===== src/Dispatch/Place.antt =====
-- zset.cpp: `znode_offset` from a node of a valid sorted set.
use redis_lite.Base.{
  ℕ, suc, ◌+◌, ◌^◌, ◌<◌, ◌≤◌, ◌≡◌, ◌⊎◌, inl, inr, refl, ◌∙◌, sym, ap, Bool, List, [], ◌∷◌, ◌++◌,
  Option, none, some, ◌>>=◌, ◌==◌, arith, count, to_nat, length, get_elem?, length-append,
  Bool-cases, Option-cases, if◌then◌else◌,
}
use mathlib.Core.List.{append_assoc}
use mathlib.Core.Path.{subst}
use redis_lite.Base.Memory.{==-true}
use redis_lite.HashTable.{Chain}
use redis_lite.HashTable.Buckets.{chain_nodes}
use redis_lite.Avl.{Tree, PathUp, leaf, node, top, left_of, right_of}
use redis_lite.Avl.Rotate.{IsAvl}
use redis_lite.Avl.Inorder.{inorder, size, around}
use redis_lite.Avl.Offset.{avl_offset, int_rank}
use redis_lite.Avl.Path.{path_size}
use redis_lite.Avl.Position.{left_size}
use redis_lite.Avl.Move.{IsAvlPath, avl_offset-IsMoved}
use redis_lite.Db.Lookup.{is_stale, is_wrong}
use redis_lite.Db.Unique.{one_node}
use redis_lite.Db.Set.{new_entry}
use redis_lite.ZSet.{ZNode, ZSet, node_at, or_else}
use redis_lite.ZSet.Valid.{IsZSet, named, as_db}
use redis_lite.ZSet.Locate.{occurs, up_left, up_right, around-split, located}
use redis_lite.Dispatch.Sets.{znode_offset, tree_item}
use redis_lite.Dispatch.Positions.{get_elem?-append, there, one_position}

pub length-inorder : (t : Tree ℕ) → length (inorder t) ≡ size t
length-inorder leaf = refl
length-inorder (node l x h c r) =
    omega (arith, length-append (inorder l) (x ∷ inorder r), length-inorder l, length-inorder r)

length-up_left : (up : PathUp ℕ) → length (up_left up) ≡ left_size up
length-up_left top = refl
length-up_left (left_of x h c r up) = length-up_left up
length-up_left (right_of l x h c up) = omega (
  arith,
  length-append (up_left up) (inorder l ++ (x ∷ [])),
  length-append (inorder l) (x ∷ []),
  length-inorder l,
  length-up_left up,
)

-- The node at the end of a path, at its position in the order.
at_place :
    (l : Tree ℕ) (x : ℕ) (r : Tree ℕ) (up : PathUp ℕ)
    → get_elem? (around (inorder l ++ (x ∷ inorder r)) up) (left_size up + size l) ≡ some x
at_place l x r up =
    let ys = inorder l ++ (x ∷ inorder r) in
    ap (λ zs. get_elem? zs (left_size up + size l)) (around-split ys up)
    ∙ get_elem?-append (up_left up) (ys ++ up_right up) (left_size up + size l) (size l)
        (omega (arith, length-up_left up))
    ∙ ap (λ zs. get_elem? zs (size l)) (append_assoc (inorder l) (x ∷ inorder r) (up_right up))
    ∙ get_elem?-append (inorder l) (x ∷ (inorder r ++ up_right up)) (size l) 0
        (omega (arith, length-inorder l))

some_pair :
    {A B : Type 0} (a a' : A) (b b' : B)
    → ◌≡◌ {A = Option (A × B)} (some (a, b)) (some (a', b'))
    → (a ≡ a') × (b ≡ b')
some_pair a a' b b' e = (cc, cc)

-- What the pointer to a node leads to is as balanced as the tree.
node_at-IsAvlPath :
    (p : ℕ) (t : Tree ℕ) (up : PathUp ℕ) (t' : Tree ℕ) (up' : PathUp ℕ)
    → node_at p t up ≡ some (t', up')
    → IsAvl t
    → IsAvlPath t up
    → IsAvl t' × IsAvlPath t' up'
unfolding node_at
node_at-IsAvlPath p leaf up t' up' e v w = cc
node_at-IsAvlPath p (node l x h c r) up t' up' e v w =
    let t = node l x h c r in
    let left = node_at p l (left_of x h c r up) in
    let right = node_at p r (right_of l x h c up) in
    let first = λ (b : Bool). or_else (if b then some (t, up) else none) (or_else left right) in
    elim (Bool-cases (x == p)) [
      | inl here ↦
          let (f, g) = some_pair t t' up up' (sym (ap first here) ∙ e) in
          subst (λ a. IsAvl a × IsAvlPath a up') f (v, subst (λ a. IsAvlPath t a) g w)
      | inr off ↦ elim (Option-cases left) [
        | inl gone ↦
            node_at-IsAvlPath p r (right_of l x h c up) t' up'
              (sym (ap (λ o. or_else o right) gone) ∙ sym (ap first off) ∙ e) v.1 (v, w)
        | inr (a, found) ↦
            node_at-IsAvlPath p l (left_of x h c r up) t' up'
              (found ∙ sym (ap (λ o. or_else o right) found) ∙ sym (ap first off) ∙ e) v.0 (v, w)
      ]
    ]

-- A node of the tree is allocated, and at one place.
alive_le :
    (z : ZSet) (p : ℕ) (c : Chain ℕ)
    → z.nodes p ≡ none
    → count (λ n. n.item == p) c ≤ count (is_stale (as_db z)) c
alive_le z p [] e = omega arith
alive_le z p (n ∷ c) e = elim (Bool-cases (n.item == p)) [
  | inl here ↦
      let lost = ap z.nodes (==-true n.item p here) ∙ e in
      omega (
        arith,
        ap to_nat here,
        ap (λ o. to_nat (is_wrong n.hcode (named o))) lost,
        alive_le z p c e,
      )
  | inr off ↦ omega (arith, ap to_nat off, alive_le z p c e)
]

pub alive :
    (z : ZSet) (nb ob : List (Chain ℕ)) (p : ℕ)
    → IsZSet z nb ob
    → 0 < occurs p (inorder z.root)
    → (m : ZNode) × (z.nodes p ≡ some m)
alive z nb ob p v some_there = elim (Option-cases (z.nodes p)) [
  | inl e ↦ absurd (
      omega (
        arith,
        some_there,
        v.same (λ q. q == p),
        v.map.live,
        alive_le z p (chain_nodes nb) e,
        alive_le z p (chain_nodes ob) e,
      ))
  | inr found ↦ found
]

-- The node at an offset in the order, or NULL if that is not a position of the set.
abbrev pub IsReached : List ℕ → ℕ → ℕ → Option ℕ → Type 0
IsReached xs i offset o =
    ((((int_rank offset + i < 2 ^ 63) ⊎ (2 ^ 63 + length xs ≤ int_rank offset + i)) × (o ≡ none))
      ⊎ ((j : ℕ) × (2 ^ 63 + j ≡ int_rank offset + i) × (j < length xs) × (o ≡ get_elem? xs j)))

offset_run :
    (z : ZSet) (p offset : ℕ) (t : Tree ℕ) (up : PathUp ℕ) (o : Option (Tree ℕ × PathUp ℕ))
    → node_at p z.root top ≡ some (t, up)
    → avl_offset t up offset ≡ some o
    → znode_offset z (some p) offset ≡ some (o >>= λ q. tree_item q.0)
unfolding znode_offset
offset_run z p offset t up o e f = rw (e, ◌>>=◌, f) refl

pub znode_offset-IsReached :
    (z : ZSet) (nb ob : List (Chain ℕ)) (i p offset : ℕ)
    → IsZSet z nb ob
    → size z.root < 2147483648
    → offset < 2 ^ 64
    → get_elem? (inorder z.root) i ≡ some p
    → (o : Option ℕ) × (znode_offset z (some p) offset ≡ some o)
      × IsReached (inorder z.root) i offset o
znode_offset-IsReached z nb ob i p offset v small short e =
    let xs = inorder z.root in
    let on = there xs i p e in
    let (n, f) = alive z nb ob p v on in
    let once : occurs p xs ≤ 1 = omega (
      arith,
      v.same (λ q. q == p),
      one_node (as_db z) nb ob p (new_entry 0 n.name []) v.map (ap named f),
    ) in
    let m = located p z.root top on v.tree _ in
    let (tree, path) =
      node_at-IsAvlPath p z.root top (node m.l m.x m.h m.c m.r) m.path m.found v.tree _ in
    let (o, run, moved) =
      avl_offset-IsMoved m.l m.x m.h m.c m.r m.path offset tree path (omega (arith, m.sizes, small))
        short in
    let place =
      ap (λ zs. get_elem? zs (left_size m.path + size m.l)) (sym m.nodes)
      ∙ at_place m.l m.x m.r m.path
      ∙ ap some (==-true m.x p m.own) in
    let here = one_position xs (left_size m.path + size m.l) i p once place e in
    let total : length xs ≡ suc (size m.l + size m.r) + path_size m.path =
      omega (arith, m.sizes, length-inorder z.root) in
    (
      o >>= λ q. tree_item q.0,
      offset_run z p offset (node m.l m.x m.h m.c m.r) m.path o m.found run,
      elim moved [
        | inl (inl low, gone) ↦
            inl (inl (omega (arith, low, here)), ap (λ a. a >>= λ q. tree_item q.0) gone)
        | inl (inr high, gone) ↦
            inl (inr (omega (arith, high, here, total)), ap (λ a. a >>= λ q. tree_item q.0) gone)
        | inr (j, rank, lt, at) ↦ inr (
          j,
          omega (arith, rank, here),
          omega (arith, lt, total),
          ap (λ a. a >>= λ q. tree_item q.0) at.found
              ∙ sym (
                  ap (get_elem? xs) (sym at.place)
                  ∙ ap (λ zs. get_elem? zs (left_size at.up + size at.l)) (sym (at.nodes ∙ m.nodes))
                  ∙ at_place at.l at.x at.r at.up),
        )
      ],
    )
