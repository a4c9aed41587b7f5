-- ===== src/Avl/Position.antt =====
-- `avl_offset` of avl.cpp against the position in the order.
use redis_lite.Base.{
  ℕ, zero, suc, ◌+◌, ◌-◌, ◌^◌, ◌≤◌, ◌<◌, ◌≡◌, ◌≢◌, ◌⊎◌, inl, inr, refl, ◌∙◌, ap, Bool, true, false,
  List, ◌∷◌, ◌++◌, Option, some, ◌>>=◌, ltb, leb, ◌==◌, ◌&&◌, arith, Bool-cases,
}
use redis_lite.Base.Memory.{==-true}
use redis_lite.Avl.{Tree, leaf, node, PathUp, top, left_of, right_of, avl_cnt}
use redis_lite.Avl.Inorder.{inorder, size, around}
use redis_lite.Avl.Rotate.{IsAvl, cnt-size}
use redis_lite.Avl.Path.{path_size}
use redis_lite.Avl.Offset.{int_rank, int_add, int_sub, leave, offset_step, after_step, offset_loop}

-- Far from the ends of int64 the arithmetic is exact.
pub rank_add : (pos n : ℕ) → int_rank pos + n < 2 ^ 64 → int_rank (int_add pos n) ≡ int_rank pos + n
rank_add pos n h = omega (arith, h)

pub rank_sub :
    (pos n : ℕ) → n ≤ int_rank pos → n < 2 ^ 64 → int_rank (int_sub pos n) + n ≡ int_rank pos
rank_sub pos n h k = omega (arith, h, k)

rank_same : (a b : ℕ) → a < 2 ^ 64 → b < 2 ^ 64 → int_rank a ≡ int_rank b → a ≡ b
rank_same a b p q e = omega (arith, p, q, e)

pub add_small : (pos n : ℕ) → int_add pos n < 2 ^ 64
add_small pos n = omega arith

pub sub_small : (pos n : ℕ) → int_sub pos n < 2 ^ 64
sub_small pos n = omega arith

pub three_places : (o base n : ℕ) → ((base ≤ o) × (o < base + n)) ⊎ ((o < base) ⊎ (base + n ≤ o))
three_places o base n = ground arith

pub ends_lem :
    (start n o : ℕ) → (o < start + 0) ⊎ (start + 0 + n ≤ o) → (o < start) ⊎ (start + (n + 0) ≤ o)
ends_lem start n o (inl p) = inl (omega (arith, p))
ends_lem start n o (inr p) = inr (omega (arith, p))

three_ways : (a b : ℕ) → (a < b) ⊎ ((a ≡ b) ⊎ (b < a))
three_ways a b = ground arith

equal_lem : (a b : ℕ) → a ≡ b → (a == b) ≡ true
equal_lem a b e = ground (arith, e)

pub not_equal : (a b : ℕ) → int_rank a ≢ int_rank b → (a == b) ≡ false
not_equal a b ne = elim (Bool-cases (a == b)) [
  | inl e ↦ absurd (ne (ap int_rank (==-true a b e)))
  | inr e ↦ e
]

both_true : (a b c d : ℕ) → a < b → c ≤ d → (ltb a b && leb c d) ≡ true
both_true a b c d p q = ground (arith, p, q)

pub first_false : (a b : ℕ) (d : Bool) → b ≤ a → (ltb a b && d) ≡ false
first_false a b d p = ground (arith, p)

pub second_false : (a b c d : ℕ) → d < c → (ltb a b && leb c d) ≡ false
second_false a b c d p = ground (arith, p)

module _ {ℓ} {A : Type ℓ} where
  -- How many nodes stand before those of the subtree at the end of a path.
  abbrev pub left_size : PathUp A → ℕ
  left_size top = 0
  left_size (left_of x h c r up) = left_size up
  left_size (right_of l x h c up) = left_size up + suc (size l)

  abbrev pub right_size : PathUp A → ℕ
  right_size top = 0
  right_size (left_of x h c r up) = suc (size r) + right_size up
  right_size (right_of l x h c up) = right_size up

  pub path_size-sides : (up : PathUp A) → path_size up ≡ left_size up + right_size up
  path_size-sides top = refl
  path_size-sides (left_of x h c r up) = omega (arith, path_size-sides up)
  path_size-sides (right_of l x h c up) = omega (arith, path_size-sides up)

  -- A node at position `j` of the nodes `xs`.
  pub record IsAt (xs : List A) (j : ℕ) (o : Option (Tree A × PathUp A)) : Type ℓ where
    pub l : Tree A
    pub x : A
    pub h : ℕ
    pub c : ℕ
    pub r : Tree A
    pub up : PathUp A
    pub found : o ≡ some (node l x h c r, up)
    pub nodes : around (inorder l ++ (x ∷ inorder r)) up ≡ xs
    pub place : left_size up + size l ≡ j
    pub tree : IsAvl (node l x h c r)

  step_right :
      (fuel offset pos : ℕ) (l : Tree A) (x : A) (h c : ℕ) (a : Tree A) (y : A) (h' c' : ℕ)
      (b : Tree A) (up : PathUp A)
      → (offset == pos) ≡ false
      → (ltb (int_rank pos) (int_rank offset) && leb (int_rank offset) (int_rank (int_add pos c')))
        ≡ true
      → offset_loop (suc fuel) offset pos (node l x h c (node a y h' c' b)) up
        ≡ offset_loop fuel offset
            (int_add pos (avl_cnt a + 1))
            (node a y h' c' b)
            (right_of l x h c up)
  unfolding offset_loop offset_step
  step_right fuel offset pos l x h c a y h' c' b up e f = rw (e, f) refl

  step_left :
      (fuel offset pos : ℕ) (a : Tree A) (y : A) (h' c' : ℕ) (b : Tree A) (x : A) (h c : ℕ)
      (r : Tree A) (up : PathUp A)
      → (offset == pos) ≡ false
      → (ltb (int_rank pos) (int_rank offset)
          && leb (int_rank offset) (int_rank (int_add pos (avl_cnt r))))
        ≡ false
      → (ltb (int_rank offset) (int_rank pos) && leb (int_rank (int_sub pos c')) (int_rank offset))
        ≡ true
      → offset_loop (suc fuel) offset pos (node (node a y h' c' b) x h c r) up
        ≡ offset_loop fuel offset
            (int_sub pos (avl_cnt b + 1))
            (node a y h' c' b)
            (left_of x h c r up)
  unfolding offset_loop offset_step
  step_left fuel offset pos a y h' c' b x h c r up e f g = rw (e, f, g) refl

  pub step_up :
      (fuel offset pos : ℕ) (l : Tree A) (x : A) (h c : ℕ) (r : Tree A) (up : PathUp A)
      → (offset == pos) ≡ false
      → (ltb (int_rank pos) (int_rank offset)
          && leb (int_rank offset) (int_rank (int_add pos (avl_cnt r))))
        ≡ false
      → (ltb (int_rank offset) (int_rank pos)
          && leb (int_rank (int_sub pos (avl_cnt l))) (int_rank offset))
        ≡ false
      → offset_loop (suc fuel) offset pos (node l x h c r) up
        ≡ (leave pos l x h c r up >>= λ o. after_step (offset_loop fuel offset) o)
  unfolding offset_loop offset_step
  step_up fuel offset pos l x h c r up e f g = rw (e, f, g) refl

  stop :
      (fuel offset pos : ℕ) (t : Tree A) (up : PathUp A)
      → (offset == pos) ≡ true
      → offset_loop (suc fuel) offset pos t up ≡ some (some (t, up))
  unfolding offset_loop
  stop fuel offset pos t up e = rw e refl

  abbrev pub before : Tree A → ℕ
  before leaf = 0
  before (node l x h c r) = size l

  -- The search below a node, when the subtree holds the position: `base` is the rank of the first
  -- position of the subtree.
  abbrev pub Below : Tree A → Type ℓ
  Below t =
      (fuel offset pos base j : ℕ) (up : PathUp A)
      → IsAvl t
      → size t ≤ fuel
      → offset < 2 ^ 64
      → pos < 2 ^ 64
      → base + before t ≡ int_rank pos
      → base + j ≡ int_rank offset
      → j < size t
      → base + size t < 2 ^ 64
      → (o : Option (Tree A × PathUp A)) × (offset_loop fuel offset pos t up ≡ some o)
        × IsAt (around (inorder t) up) (left_size up + j) o

  right-Below :
      (l : Tree A) (x : A) (h c : ℕ) (r : Tree A)
      → Below r
      → (fuel offset pos base j : ℕ) (up : PathUp A) → IsAvl (node l x h c r)
      → size l + size r ≤ fuel
      → offset < 2 ^ 64
      → pos < 2 ^ 64
      → base + size l ≡ int_rank pos
      → base + j ≡ int_rank offset
      → j < suc (size l + size r)
      → base + suc (size l + size r) < 2 ^ 64
      → size l < j
      → (o : Option (Tree A × PathUp A)) × (offset_loop (suc fuel) offset pos (node l x h c r) up
          ≡ some o)
        × IsAt (around (inorder l ++ (x ∷ inorder r)) up) (left_size up + j) o
  right-Below l x h c leaf ih fuel offset pos base j up v f p q e g k b more =
      absurd (omega (arith, k, more))
  right-Below l x h c (node a y h' c' d) ih fuel offset pos base j up (vl, vr, eh, ec, s, t) f p q e
        g k b more =
      let ca = cnt-size a vr.0 in
      let cr = cnt-size (node a y h' c' d) vr in
      let moved = rank_add pos (avl_cnt a + 1) (omega (arith, ca, e, b)) in
      let (o, run, m) =
        ih fuel offset (int_add pos (avl_cnt a + 1)) (base + suc (size l)) (j - suc (size l))
          (right_of l x h c up) vr (omega (arith, f)) p (add_small pos (avl_cnt a + 1))
          (omega (arith, moved, ca, e)) (omega (arith, g, more)) (omega (arith, k, more))
          (omega (arith, b)) in
      (
        o,
        step_right fuel offset pos l x h c a y h' c' d up
              (not_equal offset pos (λ same. omega (arith, same, e, g, more)))
              (both_true (int_rank pos) (int_rank offset) (int_rank offset)
                (int_rank (int_add pos c')) (omega (arith, e, g, more))
                (omega (arith, rank_add pos c' (omega (arith, cr, e, b)), cr, e, g, k)))
            ∙ run,
        record {
          l = m.l;
          x = m.x;
          h = m.h;
          c = m.c;
          r = m.r;
          up = m.up;
          found = m.found;
          nodes = m.nodes;
          place = omega (arith, m.place, more);
          tree = m.tree;
        },
      )

  left-Below :
      (l : Tree A) (x : A) (h c : ℕ) (r : Tree A)
      → Below l
      → (fuel offset pos base j : ℕ) (up : PathUp A) → IsAvl (node l x h c r)
      → size l + size r ≤ fuel
      → offset < 2 ^ 64
      → pos < 2 ^ 64
      → base + size l ≡ int_rank pos
      → base + j ≡ int_rank offset
      → base + suc (size l + size r) < 2 ^ 64
      → j < size l
      → (o : Option (Tree A × PathUp A)) × (offset_loop (suc fuel) offset pos (node l x h c r) up
          ≡ some o)
        × IsAt (around (inorder l ++ (x ∷ inorder r)) up) (left_size up + j) o
  left-Below leaf x h c r ih fuel offset pos base j up v f p q e g b less =
      absurd (omega (arith, less))
  left-Below (node a y h' c' d) x h c r ih fuel offset pos base j up (vl, vr, eh, ec, s, t) f p q e
        g b less =
      let cd = cnt-size d vl.1 in
      let cl = cnt-size (node a y h' c' d) vl in
      let moved = rank_sub pos (avl_cnt d + 1) (omega (arith, cd, e)) (omega (arith, cd, b)) in
      let back = rank_sub pos c' (omega (arith, cl, e)) (omega (arith, cl, b)) in
      let (o, run, m) =
        ih fuel offset (int_sub pos (avl_cnt d + 1)) base j (left_of x h c r up) vl
          (omega (arith, f)) p (sub_small pos (avl_cnt d + 1)) (omega (arith, moved, cd, e)) g less
          (omega (arith, b)) in
      (
        o,
        step_left fuel offset pos a y h' c' d x h c r up
              (not_equal offset pos (λ same. omega (arith, same, e, g, less)))
              (first_false (int_rank pos) (int_rank offset) _ (omega (arith, e, g, less)))
              (both_true (int_rank offset) (int_rank pos) (int_rank (int_sub pos c'))
                (int_rank offset) (omega (arith, e, g, less)) (omega (arith, back, cl, e, g)))
            ∙ run,
        m,
      )

  pub below : (t : Tree A) → Below t
  below leaf fuel offset pos base j up v f p q e g k b = absurd (omega (arith, k))
  below (node l x h c r) zero offset pos base j up v f p q e g k b = absurd (omega (arith, f))
  below (node l x h c r) (suc fuel) offset pos base j up v f p q e g k b =
      elim (three_ways j (size l)) [
        | inl less ↦
            left-Below l x h c r (below l) fuel offset pos base j up v (omega (arith, f)) p q e g b
              less
        | inr (inl same) ↦ (
          some (node l x h c r, up),
          stop fuel offset pos (node l x h c r) up
              (equal_lem offset pos (rank_same offset pos p q (omega (arith, e, g, same)))),
          record {
            l = l;
            x = x;
            h = h;
            c = c;
            r = r;
            up = up;
            found = refl;
            nodes = refl;
            place = omega (arith, same);
            tree = v;
          },
        )
        | inr (inr more) ↦
            right-Below l x h c r (below r) fuel offset pos base j up v (omega (arith, f)) p q e g k
              b more
      ]
