-- ===== src/Avl/Offset.antt =====
-- `avl_offset` of avl.cpp. An int64 is its 64-bit pattern.
use redis_lite.Base.{
  ℕ, zero, suc, ◌+◌, ◌-◌, ◌%◌, ◌^◌, Option, none, some, ◌>>=◌, ltb, leb, ◌==◌, ◌&&◌, if◌then◌else◌,
}
use redis_lite.Avl.{Tree, leaf, node, PathUp, top, left_of, right_of, avl_cnt}
use redis_lite.Avl.Inorder.{size}
use redis_lite.Avl.Path.{path_size}

-- The place of a pattern in the order of int64.
abbrev pub int_rank : ℕ → ℕ
int_rank v = (v + 2 ^ 63) % 2 ^ 64

-- `pos + n` and `pos - n` of an int64 and a uint32.
abbrev pub int_add : ℕ → ℕ → ℕ
int_add pos n = (pos + n) % 2 ^ 64

abbrev pub int_sub : ℕ → ℕ → ℕ
int_sub pos n = (pos + (2 ^ 64 - n)) % 2 ^ 64

module _ {ℓ} {A : Type ℓ} where
  -- Where the loop goes on, with the new `pos`.
  abbrev pub enter_right :
      ℕ → Tree A → A → ℕ → ℕ → Tree A → PathUp A → Option (Option (ℕ × Tree A × PathUp A))
  enter_right pos l x h c leaf up = none
  enter_right pos l x h c (node a y h' c' b) up =
      some (some (int_add pos (avl_cnt a + 1), node a y h' c' b, right_of l x h c up))

  abbrev pub enter_left :
      ℕ → Tree A → A → ℕ → ℕ → Tree A → PathUp A → Option (Option (ℕ × Tree A × PathUp A))
  enter_left pos leaf x h c r up = none
  enter_left pos (node a y h' c' b) x h c r up =
      some (some (int_sub pos (avl_cnt b + 1), node a y h' c' b, left_of x h c r up))

  -- To the parent; `none` inside is the return of NULL at the root.
  abbrev pub leave :
      ℕ → Tree A → A → ℕ → ℕ → Tree A → PathUp A → Option (Option (ℕ × Tree A × PathUp A))
  leave pos l x h c r top = some none
  leave pos l x h c r (left_of y h' c' b up) =
      some (some (int_add pos (avl_cnt r + 1), node (node l x h c r) y h' c' b, up))
  leave pos l x h c r (right_of a y h' c' up) =
      some (some (int_sub pos (avl_cnt l + 1), node a y h' c' (node l x h c r), up))

  -- One round of the loop, which is never at NULL.
  unfoldable pub offset_step : ℕ → ℕ → Tree A → PathUp A → Option (Option (ℕ × Tree A × PathUp A))
  offset_step offset pos leaf up = none
  offset_step offset pos (node l x h c r) up =
      if ltb (int_rank pos) (int_rank offset)
        && leb (int_rank offset) (int_rank (int_add pos (avl_cnt r)))
      then enter_right pos l x h c r up
      else (if ltb (int_rank offset) (int_rank pos)
            && leb (int_rank (int_sub pos (avl_cnt l))) (int_rank offset)
          then enter_left pos l x h c r up
          else leave pos l x h c r up)

  abbrev pub after_step :
      (ℕ → Tree A → PathUp A → Option (Option (Tree A × PathUp A)))
      → Option (ℕ × Tree A × PathUp A)
      → Option (Option (Tree A × PathUp A))
  after_step loop none = some none
  after_step loop (some (pos, t, up)) = loop pos t up

  unfoldable pub offset_loop : ℕ → ℕ → ℕ → Tree A → PathUp A → Option (Option (Tree A × PathUp A))
  offset_loop zero offset pos t up = none
  offset_loop (suc fuel) offset pos t up =
      if offset == pos
      then some (some (t, up))
      else (offset_step offset pos t up >>= λ o. after_step (offset_loop fuel offset) o)

  -- Each node is left upwards once at most, and entered downwards once.
  unfoldable pub avl_offset : Tree A → PathUp A → ℕ → Option (Option (Tree A × PathUp A))
  avl_offset t up offset = offset_loop (suc (path_size up + (size t + path_size up))) offset 0 t up
