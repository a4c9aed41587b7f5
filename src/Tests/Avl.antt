-- ===== src/Tests/Avl.antt =====
-- avl.cpp on the tree of 1, 2, 3 and 4 with the root 2, and the place below 3 and above 4.
use redis_lite.Base.{
  ℕ, ◌+◌, ◌^◌, ◌≡◌, ◌⊎◌, ◌<◌, ◌≤◌, refl, [], ◌∷◌, Option, none, some, arith, Returns, ◌==◌,
}
use redis_lite.Avl.Offset.{avl_offset, int_rank}
use redis_lite.Avl.Position.{IsAt}
use redis_lite.Avl.Move.{avl_offset-IsMoved}
use redis_lite.Avl.{Tree, leaf, node, PathUp, top, right_of, avl_init, avl_fix, avl_del}
use redis_lite.Avl.Path.{IsTreeOf}
use redis_lite.Avl.Remove.{avl_fix-init}
use redis_lite.Avl.Swap.{avl_del-removed}

abbrev one : Tree ℕ
one = avl_init 1

-- The right child of 3, below the root 2.
abbrev below_3 : PathUp ℕ
below_3 = right_of leaf 3 1 1 (right_of one 2 2 3 top)

avl_fix-init_example : Returns (IsTreeOf (1 ∷ 2 ∷ 3 ∷ 4 ∷ [])) (avl_fix (avl_init 4) below_3)
avl_fix-init_example =
    avl_fix-init 4 below_3
      (
        _,
        refl,
        omega arith,
        omega arith,
        ((_, _, refl, refl, omega arith, omega arith), refl, omega arith, omega arith, _),
      )
      (omega arith)

abbrev three_four : Tree ℕ
three_four = node leaf 3 2 2 (avl_init 4)

avl_del-removed_example :
    Returns (IsTreeOf (1 ∷ 3 ∷ 4 ∷ [])) (avl_del (λ x. x == 2) (node one 2 3 4 three_four) top)
avl_del-removed_example =
    avl_del-removed (λ x. x == 2) one 2 3 4 three_four top
      (
        (_, _, refl, refl, omega arith, omega arith),
        (_, (_, _, refl, refl, omega arith, omega arith), refl, refl, omega arith, omega arith),
        refl,
        refl,
        omega arith,
        omega arith,
      )
      _ (omega arith) refl (refl, _) (refl, (refl, _)) _

-- 7 with 8 to its right.
abbrev pair_tree : Tree ℕ
pair_tree = node leaf 7 2 2 (node leaf 8 1 1 leaf)

avl_offset-IsMoved_example :
    (o : Option (Tree ℕ × PathUp ℕ)) × (avl_offset pair_tree top 1 ≡ some o)
    × ((((int_rank 1 + (0 + 0) < 2 ^ 63) ⊎ (2 ^ 63 + (2 + 0) ≤ int_rank 1 + (0 + 0))) × (o ≡ none))
        ⊎ ((j : ℕ) × (2 ^ 63 + j ≡ int_rank 1 + (0 + 0)) × (j < 2 + 0) × IsAt (7 ∷ 8 ∷ []) j o))
avl_offset-IsMoved_example =
    avl_offset-IsMoved leaf 7 2 2 (node leaf 8 1 1 leaf) top 1
      (_, (_, _, refl, refl, omega arith, omega arith), refl, refl, omega arith, omega arith) _
      (omega arith) (omega arith)
