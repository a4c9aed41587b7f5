-- ===== src/ZSet/Locate.antt =====
-- zset.cpp: what the pointer to a tree node leads to.
use redis_lite.Base.{
  ℕ, suc, ◌+◌, ◌<◌, ◌≡◌, refl, ◌∙◌, sym, ap, true, false, List, [], ◌∷◌, ◌++◌, none, some, ◌==◌,
  arith, count, count-append, to_nat, Bool-cases, inl, inr,
}
use mathlib.Core.List.{append_assoc, append-nil}
use redis_lite.Base.Memory.{==-true}
use redis_lite.Avl.{Tree, leaf, node, PathUp, top, left_of, right_of, avl_height}
use redis_lite.Avl.Inorder.{inorder, size, around}
use redis_lite.Avl.Rotate.{IsAvl}
use redis_lite.Avl.Path.{IsPath, path_size}
use redis_lite.ZSet.{node_at}

abbrev pub occurs : ℕ → List ℕ → ℕ
occurs p xs = count (λ q. q == p) xs

-- The nodes of the tree before and behind those of the subtree at the end of a path.
abbrev pub up_left : PathUp ℕ → List ℕ
up_left top = []
up_left (left_of x h c r up) = up_left up
up_left (right_of l x h c up) = up_left up ++ (inorder l ++ (x ∷ []))

abbrev pub up_right : PathUp ℕ → List ℕ
up_right top = []
up_right (left_of x h c r up) = x ∷ (inorder r ++ up_right up)
up_right (right_of l x h c up) = up_right up

pub around-split : (ys : List ℕ) (up : PathUp ℕ) → around ys up ≡ up_left up ++ (ys ++ up_right up)
around-split ys top = sym (append-nil ys)
around-split ys (left_of x h c r up) =
    around-split (ys ++ (x ∷ inorder r)) up
    ∙ ap (λ zs. up_left up ++ zs) (append_assoc ys (x ∷ inorder r) (up_right up))
around-split ys (right_of l x h c up) =
    around-split (inorder l ++ (x ∷ ys)) up
    ∙ ap (λ zs. up_left up ++ zs)
        (append_assoc (inorder l) (x ∷ ys) (up_right up)
          ∙ sym (append_assoc (inorder l) (x ∷ []) (ys ++ up_right up)))
    ∙ sym (append_assoc (up_left up) (inorder l ++ (x ∷ [])) (ys ++ up_right up))

pub record Located (p : ℕ) (t : Tree ℕ) (up : PathUp ℕ) : Type 0 where
  pub l : Tree ℕ
  pub x : ℕ
  pub h : ℕ
  pub c : ℕ
  pub r : Tree ℕ
  pub path : PathUp ℕ
  pub found : node_at p t up ≡ some (node l x h c r, path)
  pub own : (x == p) ≡ true
  pub nodes : around (inorder l ++ (x ∷ inorder r)) path ≡ around (inorder t) up
  pub tree : IsAvl (node l x h c r)
  pub valid : IsPath h path
  pub sizes : suc (size l + size r) + path_size path ≡ size t + path_size up

pub some_nonzero : (n : ℕ) → (n == 0) ≡ false → 0 < n
some_nonzero n e = ground (arith, e)

node_at-none :
    (p : ℕ) (t : Tree ℕ) (up : PathUp ℕ) → occurs p (inorder t) ≡ 0 → node_at p t up ≡ none
unfolding node_at
node_at-none p leaf up off = refl
node_at-none p (node l x h c r) up off =
    let split = count-append (λ q. q == p) (inorder l) (x ∷ inorder r) in
    elim (Bool-cases (x == p)) [
      | inl e ↦ absurd (omega (arith, off, split, ap to_nat e))
      | inr e ↦
          rw
            (
              node_at,
              e,
              node_at-none p l (left_of x h c r up) (omega (arith, off, split)),
              node_at-none p r (right_of l x h c up) (omega (arith, off, split)),
            )
            refl
    ]

here_lem :
    (p x h c : ℕ) (l r : Tree ℕ) (up : PathUp ℕ)
    → (x == p) ≡ true
    → node_at p (node l x h c r) up ≡ some (node l x h c r, up)
unfolding node_at
here_lem p x h c l r up e = rw (node_at, e) refl

left_lem :
    (p x h c : ℕ) (l r : Tree ℕ) (up : PathUp ℕ) (o : Tree ℕ × PathUp ℕ)
    → (x == p) ≡ false
    → node_at p l (left_of x h c r up) ≡ some o
    → node_at p (node l x h c r) up ≡ some o
unfolding node_at
left_lem p x h c l r up o e f = rw (node_at, e, f) refl

right_lem :
    (p x h c : ℕ) (l r : Tree ℕ) (up : PathUp ℕ) (o : Tree ℕ × PathUp ℕ)
    → (x == p) ≡ false
    → node_at p l (left_of x h c r up) ≡ none
    → node_at p r (right_of l x h c up) ≡ some o
    → node_at p (node l x h c r) up ≡ some o
unfolding node_at
right_lem p x h c l r up o e f g = rw (node_at, e, f, g) refl

pub located :
    (p : ℕ) (t : Tree ℕ) (up : PathUp ℕ)
    → 0 < occurs p (inorder t)
    → IsAvl t
    → IsPath (avl_height t) up
    → Located p t up
located p leaf up on v w = absurd (omega (arith, on))
located p (node l x h c r) up on (vl, vr, eh, ec, a, b) w =
    let split = count-append (λ q. q == p) (inorder l) (x ∷ inorder r) in
    elim (Bool-cases (x == p)) [
      | inl e ↦ record {
        l = l;
        x = x;
        h = h;
        c = c;
        r = r;
        path = up;
        found = here_lem p x h c l r up e;
        own = e;
        nodes = refl;
        tree = (vl, vr, eh, ec, a, b);
        valid = w;
        sizes = omega arith;
      }
      | inr e ↦ elim (Bool-cases (occurs p (inorder l) == 0)) [
        | inr some_left ↦
            let m =
              located p l (left_of x h c r up) (some_nonzero (occurs p (inorder l)) some_left) vl
                (vr, eh, a, b, w) in
            record {
              l = m.l;
              x = m.x;
              h = m.h;
              c = m.c;
              r = m.r;
              path = m.path;
              found = left_lem p x h c l r up (node m.l m.x m.h m.c m.r, m.path) e m.found;
              own = m.own;
              nodes = m.nodes;
              tree = m.tree;
              valid = m.valid;
              sizes = omega (arith, m.sizes);
            }
        | inl none_left ↦
            let off = ==-true (occurs p (inorder l)) 0 none_left in
            let m =
              located p r (right_of l x h c up) (omega (arith, on, split, off, ap to_nat e)) vr
                (vl, eh, b, a, w) in
            record {
              l = m.l;
              x = m.x;
              h = m.h;
              c = m.c;
              r = m.r;
              path = m.path;
              found =
                  right_lem p x h c l r up (node m.l m.x m.h m.c m.r, m.path) e
                    (node_at-none p l (left_of x h c r up) off) m.found;
              own = m.own;
              nodes = m.nodes;
              tree = m.tree;
              valid = m.valid;
              sizes = omega (arith, m.sizes);
            }
      ]
    ]
