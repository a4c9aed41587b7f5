-- ===== src/Avl/Swap.antt =====
-- `avl_del` of avl.cpp: the easy case, and the case where the node's successor takes its place.
use redis_lite.Base.{
  ℕ, ◌+◌, ◌<◌, ◌≡◌, inl, inr, refl, ◌∙◌, sym, ap, Bool, true, false, List, [], ◌∷◌, ◌++◌, some,
  ◌>>=◌, arith, Returns, if◌then◌else◌,
}
use mathlib.Core.List.{map, map-append}
use mathlib.Core.Path.{ap₂, subst}
use redis_lite.Avl.{
  Tree, leaf, node, PathUp, top, left_of, right_of, avl_height, avl_cnt, swap_node, del_victim,
  avl_del,
}
use redis_lite.Avl.Inorder.{inorder, size, around}
use redis_lite.Avl.Rotate.{IsAvl}
use redis_lite.Avl.Path.{IsPath, IsTreeOf, path_size}
use redis_lite.Avl.Remove.{del_easy_walk, walk_down}

module _ {ℓ} {A : Type ℓ} (is_old : A → Bool) where
  abbrev swap_one : A → A → A
  swap_one new x = if is_old x then new else x

  swap-height : (new : A) (t : Tree A) → avl_height (swap_node is_old new t) ≡ avl_height t
  unfolding swap_node
  swap-height new leaf = refl
  swap-height new (node l x h c r) = refl

  swap-cnt : (new : A) (t : Tree A) → avl_cnt (swap_node is_old new t) ≡ avl_cnt t
  unfolding swap_node
  swap-cnt new leaf = refl
  swap-cnt new (node l x h c r) = refl

  swap-IsAvl : (new : A) (t : Tree A) → IsAvl t → IsAvl (swap_node is_old new t)
  unfolding swap_node
  swap-IsAvl new leaf v = v
  swap-IsAvl new (node l x h c r) (vl, vr, eh, ec, p, q) =
      let hl = swap-height new l in
      let hr = swap-height new r in
      (
        swap-IsAvl new l vl,
        swap-IsAvl new r vr,
        omega (arith, hl, hr),
        omega (arith, swap-cnt new l, swap-cnt new r),
        omega (arith, hl, hr),
        omega (arith, hl, hr),
      )

  swap-inorder :
      (new : A) (t : Tree A) → inorder (swap_node is_old new t) ≡ map (swap_one new) (inorder t)
  unfolding swap_node
  swap-inorder new leaf = refl
  swap-inorder new (node l x h c r) =
      ap₂ (λ xs ys. xs ++ (swap_one new x ∷ ys)) (swap-inorder new l) (swap-inorder new r)
      ∙ sym (map-append (swap_one new) (inorder l) (x ∷ inorder r))

  -- None of the nodes is the old one.
  abbrev pub AreOthers : List A → Type 0
  AreOthers [] = Unit
  AreOthers (x ∷ xs) = (is_old x ≡ false) × AreOthers xs

  abbrev pub PathOthers : PathUp A → Type 0
  PathOthers top = Unit
  PathOthers (left_of x h c r up) = (is_old x ≡ false) × AreOthers (inorder r) × PathOthers up
  PathOthers (right_of l x h c up) = (is_old x ≡ false) × AreOthers (inorder l) × PathOthers up

  others_keep : (new : A) (xs : List A) → AreOthers xs → map (swap_one new) xs ≡ xs
  others_keep new [] others = refl
  others_keep new (x ∷ xs) (e, others) =
      ap₂ (λ y ys. y ∷ ys) (ap (λ b. if b then new else x) e) (others_keep new xs others)

  around_keep :
      (new : A) (xs : List A) (up : PathUp A)
      → PathOthers up
      → map (swap_one new) (around xs up) ≡ around (map (swap_one new) xs) up
  around_keep new xs top others = refl
  around_keep new xs (left_of x h c r up) (e, o, others) =
      around_keep new (xs ++ (x ∷ inorder r)) up others
      ∙ ap (λ ys. around ys up)
          (map-append (swap_one new) xs (x ∷ inorder r)
            ∙ ap (λ ys. map (swap_one new) xs ++ ys) (others_keep new (x ∷ inorder r) (e, o)))
  around_keep new xs (right_of l x h c up) (e, o, others) =
      around_keep new (inorder l ++ (x ∷ xs)) up others
      ∙ ap (λ ys. around ys up)
          (map-append (swap_one new) (inorder l) (x ∷ xs)
            ∙ ap₂ (λ ys y. ys ++ (y ∷ map (swap_one new) xs)) (others_keep new (inorder l) o)
                (ap (λ b. if b then new else x) e))

  -- The old node among the others, replaced.
  swap_middle :
      (l rest : List A) (x new : A) (up : PathUp A)
      → is_old x ≡ true
      → AreOthers l
      → AreOthers rest
      → PathOthers up
      → map (swap_one new) (around (l ++ (x ∷ rest)) up) ≡ around (l ++ (new ∷ rest)) up
  swap_middle l rest x new up e ol or others =
      around_keep new (l ++ (x ∷ rest)) up others
      ∙ ap (λ ys. around ys up)
          (map-append (swap_one new) l (x ∷ rest)
            ∙ ap₂ (λ ys zs. ys ++ zs) (others_keep new l ol)
                (ap₂ (λ y ys. y ∷ ys) (ap (λ b. if b then new else x) e) (others_keep new rest or)))

  -- If `is_old` tells the node from all others, `avl_del` of any node at any place of a balanced tree
  -- below 2 ^ 31 nodes succeeds. The new tree is balanced and has the other nodes in their order.
  pub avl_del-removed :
      (l : Tree A) (x : A) (h c : ℕ) (r : Tree A) (up : PathUp A)
      → IsAvl (node l x h c r)
      → IsPath h up
      → size l + size r + path_size up < 2147483647
      → is_old x ≡ true
      → AreOthers (inorder l)
      → AreOthers (inorder r)
      → PathOthers up
      → Returns (IsTreeOf (around (inorder l ++ inorder r) up)) (avl_del is_old (node l x h c r) up)
  unfolding avl_del del_victim
  avl_del-removed leaf x h c r up valid path small e ol or others =
      del_easy_walk leaf x h c r up (inl refl) valid path (omega arith)
  avl_del-removed (node a y k d b) x h c leaf up valid path small e ol or others =
      del_easy_walk (node a y k d b) x h c leaf up (inr refl) valid path (omega arith)
  avl_del-removed (node a y k d b) x h c (node a' y' k' d' b') up (vl, vr, eh, ec, p, q) path small
        e ol or others =
      let l = node a y k d b in
      let r = node a' y' k' d' b' in
      let above = right_of l x h c up in
      let m = walk_down a' y' k' d' b' above vr (vl, eh, q, p, path) in
      let (root, e', (v, i)) =
        del_easy_walk leaf m.v m.h m.c m.r m.path (inl refl) m.valid m.valid_path
          (omega (arith, m.same_size)) in
      (
        swap_node is_old m.v root,
        ap (λ (f : Tree A × PathUp A). del_victim is_old f.0 f.1) m.found
            ∙ ap (λ o. o >>= λ t. some (swap_node is_old m.v t)) e',
        (
          swap-IsAvl m.v root v,
          swap-inorder m.v root
              ∙ ap (map (swap_one m.v)) (i ∙ m.rest_around)
              ∙ swap_middle (inorder l) m.rest x m.v up e ol (subst AreOthers m.is_first or).1
                  others
              ∙ ap (λ ys. around (inorder l ++ ys) up) (sym m.is_first),
        ),
      )
