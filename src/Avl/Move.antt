-- ===== src/Avl/Move.antt =====
-- `avl_offset` of avl.cpp: the walk to a position anywhere in the tree.
use redis_lite.Base.{
  ℕ, zero, suc, ◌+◌, ◌-◌, ◌^◌, ◌≤◌, ◌<◌, ◌≡◌, ◌⊎◌, inl, inr, refl, ◌∙◌, List, Option, none, some,
  ◌>>=◌, arith,
}
use mathlib.Core.Path.{subst}
use redis_lite.Avl.{Tree, node, PathUp, top, left_of, right_of, avl_cnt}
use redis_lite.Avl.Inorder.{inorder, size, around}
use redis_lite.Avl.Rotate.{IsAvl, cnt-size}
use redis_lite.Avl.Path.{path_size}
use redis_lite.Avl.Offset.{int_rank, int_add, int_sub, leave, after_step, offset_loop, avl_offset}
use redis_lite.Avl.Position.{
  rank_add, rank_sub, add_small, sub_small, step_up, below, three_places, ends_lem, not_equal,
  first_false, second_false, left_size, path_size-sides, IsAt,
}

module _ {ℓ} {A : Type ℓ} where
  -- All nodes on the path are in balance, with the counts of the tree.
  abbrev pub IsAvlPath : Tree A → PathUp A → Type 0
  IsAvlPath t top = Unit
  IsAvlPath t (left_of x h c r up) = IsAvl (node t x h c r) × IsAvlPath (node t x h c r) up
  IsAvlPath t (right_of l x h c up) = IsAvl (node l x h c t) × IsAvlPath (node l x h c t) up

  -- NULL if the offset leads out of the tree, whose first position has the rank `start`; otherwise
  -- the node at its position.
  abbrev pub IsMoved : ℕ → ℕ → ℕ → List A → Option (Tree A × PathUp A) → Type ℓ
  IsMoved start count rank xs o =
      (((rank < start) ⊎ (start + count ≤ rank)) × (o ≡ none))
      ⊎ ((j : ℕ) × (start + j ≡ rank) × (j < count) × IsAt xs j o)

  -- The two tests of the loop fail outside of the subtree.
  leaves :
      (fuel offset pos base : ℕ) (l : Tree A) (x : A) (h c : ℕ) (r : Tree A) (up : PathUp A)
      → IsAvl (node l x h c r)
      → base + size l ≡ int_rank pos
      → base + suc (size l + size r) < 2 ^ 64
      → (int_rank offset < base) ⊎ (base + suc (size l + size r) ≤ int_rank offset)
      → offset_loop (suc fuel) offset pos (node l x h c r) up
        ≡ (leave pos l x h c r up >>= λ o. after_step (offset_loop fuel offset) o)
  leaves fuel offset pos base l x h c r up v e b out =
      let cl = cnt-size l v.0 in
      let cr = cnt-size r v.1 in
      let far = rank_add pos (avl_cnt r) (omega (arith, cr, e, b)) in
      let back = rank_sub pos (avl_cnt l) (omega (arith, cl, e)) (omega (arith, cl, b)) in
      elim out [
        | inl low ↦
            step_up fuel offset pos l x h c r up
              (not_equal offset pos (λ same. omega (arith, same, e, low)))
              (first_false (int_rank pos) (int_rank offset) _ (omega (arith, e, low)))
              (second_false (int_rank offset) (int_rank pos) (int_rank (int_sub pos (avl_cnt l)))
                (int_rank offset) (omega (arith, back, cl, e, low)))
        | inr high ↦
            step_up fuel offset pos l x h c r up
              (not_equal offset pos (λ same. omega (arith, same, e, high)))
              (second_false (int_rank pos) (int_rank offset) (int_rank offset)
                (int_rank (int_add pos (avl_cnt r))) (omega (arith, far, cr, e, high)))
              (first_false (int_rank offset) (int_rank pos) _ (omega (arith, e, high)))
      ]

  same_count :
      {start n n' rank : ℕ} {xs : List A} {o : Option (Tree A × PathUp A)}
      → IsMoved start n rank xs o
      → n ≡ n'
      → IsMoved start n' rank xs o
  same_count {start} {n} {n'} {rank} {xs} {o} m e = subst (λ k. IsMoved start k rank xs o) e m

  abbrev Search : ℕ → ℕ → ℕ → ℕ → Tree A → PathUp A → Type ℓ
  Search fuel offset pos start t up =
      (o : Option (Tree A × PathUp A)) × (offset_loop fuel offset pos t up ≡ some o)
      × IsMoved start (size t + path_size up) (int_rank offset) (around (inorder t) up) o

  -- The position is below the node, or the search goes on above it.
  here_or_above :
      (up : PathUp A) (fuel offset pos start : ℕ) (l : Tree A) (x : A) (h c : ℕ) (r : Tree A)
      → IsAvl (node l x h c r)
      → size (node l x h c r) ≤ fuel
      → offset < 2 ^ 64
      → pos < 2 ^ 64
      → start + left_size up + size l ≡ int_rank pos
      → start + (size (node l x h c r) + path_size up) < 2 ^ 64
      → (((int_rank offset < start + left_size up)
            ⊎ (start + left_size up + suc (size l + size r) ≤ int_rank offset))
          → (offset_loop (suc fuel) offset pos (node l x h c r) up
              ≡ (leave pos l x h c r up >>= λ o. after_step (offset_loop fuel offset) o))
          → Search (suc fuel) offset pos start (node l x h c r) up)
      → Search (suc fuel) offset pos start (node l x h c r) up
  here_or_above up fuel offset pos start l x h c r v f p q e b above =
      let base = start + left_size up in
      let sides = path_size-sides up in
      elim (three_places (int_rank offset) base (suc (size l + size r))) [
        | inl (lo, hi) ↦
            let j = int_rank offset - base in
            let (o, run, m) =
              below (node l x h c r) (suc fuel) offset pos base j up v (omega (arith, f)) p q e
                (omega (arith, lo)) (omega (arith, lo, hi)) (omega (arith, b, sides)) in
            (o, run, inr (left_size up + j, omega (arith, lo), omega (arith, lo, hi, sides), m))
        | inr out ↦
            above out (leaves fuel offset pos base l x h c r up v e (omega (arith, b, sides)) out)
      ]

  search :
      (up : PathUp A) (fuel offset pos start : ℕ) (l : Tree A) (x : A) (h c : ℕ) (r : Tree A)
      → IsAvl (node l x h c r)
      → IsAvlPath (node l x h c r) up
      → path_size up + (size (node l x h c r) + path_size up) < fuel
      → offset < 2 ^ 64
      → pos < 2 ^ 64
      → start + left_size up + size l ≡ int_rank pos
      → start + (size (node l x h c r) + path_size up) < 2 ^ 64
      → Search fuel offset pos start (node l x h c r) up
  search up zero offset pos start l x h c r v w f p q e b = absurd (omega (arith, f))
  search top (suc fuel) offset pos start l x h c r v w f p q e b =
      here_or_above top fuel offset pos start l x h c r v (omega (arith, f)) p q e b (λ out run.
        (none, run, inl (ends_lem start (suc (size l + size r)) (int_rank offset) out, refl)))
  search (left_of y k d t up) (suc fuel) offset pos start l x h c r v w f p q e b =
      let cr = cnt-size r v.1 in
      let far = rank_add pos (avl_cnt r + 1) (omega (arith, cr, e, b, path_size-sides up)) in
      here_or_above (left_of y k d t up) fuel offset pos start l x h c r v (omega (arith, f)) p q e
        b
        (λ out run.
          let (o, go, m) =
            search up fuel offset (int_add pos (avl_cnt r + 1)) start (node l x h c r) y k d t w.0
              w.1 (omega (arith, f)) p (add_small pos (avl_cnt r + 1)) (omega (arith, far, cr, e))
              (omega (arith, b)) in
          (o, run ∙ go, same_count m (omega arith)))
  search (right_of t y k d up) (suc fuel) offset pos start l x h c r v w f p q e b =
      let cl = cnt-size l v.0 in
      let back = rank_sub pos (avl_cnt l + 1) (omega (arith, cl, e)) (omega (arith, cl, e, b)) in
      here_or_above (right_of t y k d up) fuel offset pos start l x h c r v (omega (arith, f)) p q e
        b
        (λ out run.
          let (o, go, m) =
            search up fuel offset (int_sub pos (avl_cnt l + 1)) start t y k d (node l x h c r) w.0
              w.1 (omega (arith, f)) p (sub_small pos (avl_cnt l + 1)) (omega (arith, back, cl, e))
              (omega (arith, b)) in
          (o, run ∙ go, same_count m (omega arith)))

  -- From a node of a balanced tree below 2 ^ 31 nodes, `avl_offset` ends without a fault. From the
  -- position `i` in the order an int64 offset leads to the node at the position `i` plus the offset,
  -- and to NULL if that is not a position of the tree.
  pub avl_offset-IsMoved :
      (l : Tree A) (x : A) (h c : ℕ) (r : Tree A) (up : PathUp A) (offset : ℕ)
      → IsAvl (node l x h c r)
      → IsAvlPath (node l x h c r) up
      → size (node l x h c r) + path_size up < 2147483648
      → offset < 2 ^ 64
      → (o : Option (Tree A × PathUp A)) × (avl_offset (node l x h c r) up offset ≡ some o)
        × ((((int_rank offset + (left_size up + size l) < 2 ^ 63)
                ⊎ (2 ^ 63 + (size (node l x h c r) + path_size up)
                    ≤ int_rank offset + (left_size up + size l)))
              × (o ≡ none))
            ⊎ ((j : ℕ) × (2 ^ 63 + j ≡ int_rank offset + (left_size up + size l))
                × (j < size (node l x h c r) + path_size up)
                × IsAt (around (inorder (node l x h c r)) up) j o))
  unfolding avl_offset
  avl_offset-IsMoved l x h c r up offset v w small p =
      let i = left_size up + size l in
      let sides = path_size-sides up in
      let (o, run, m) =
        search up (suc (path_size up + (size (node l x h c r) + path_size up))) offset 0
          (2 ^ 63 - i) l x h c r v w (omega arith) p (omega arith) (omega (arith, small, sides))
          (omega (arith, small)) in
      (
        o,
        run,
        elim m [
          | inl (inl q, e) ↦ inl (inl (omega (arith, q, small, sides)), e)
          | inl (inr q, e) ↦ inl (inr (omega (arith, q, small, sides)), e)
          | inr (j, e, lt, at) ↦ inr (j, omega (arith, e, small, sides), lt, at)
        ],
      )
