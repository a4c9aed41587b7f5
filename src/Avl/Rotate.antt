-- ===== src/Avl/Rotate.antt =====
-- avl.cpp: the invariant of the nodes, and the repair of one node that is out of balance by two.
use redis_lite.Base.{ℕ, suc, ◌+◌, ◌%◌, ◌^◌, ◌≤◌, ◌<◌, ◌≡◌, refl, ◌∙◌, sym, ap, ◌∷◌, ◌++◌, arith}
use Prim.Native.Nat.{max}
use mathlib.Core.Path.{ap₂, subst}
use mathlib.Core.List.{append_assoc}
use redis_lite.Avl.{Tree, leaf, node, avl_height, avl_cnt, avl_update, larger}
use redis_lite.Avl.Inorder.{inorder, size}

larger-max : (a b : ℕ) → larger a b ≡ max a b
larger-max a b = ground arith

small_mod : (n : ℕ) → n < 4294967296 → n % 2 ^ 32 ≡ n
small_mod n p = omega arith

module _ {ℓ} {A : Type ℓ} where
  -- Stored heights and counts are right, and heights of siblings differ by at most one.
  abbrev pub IsAvl : Tree A → Type 0
  IsAvl leaf = Unit
  IsAvl (node l x h c r) =
      IsAvl l
      × IsAvl r
      × (h ≡ 1 + max (avl_height l) (avl_height r))
      × (c ≡ 1 + avl_cnt l + avl_cnt r)
      × (avl_height l ≤ avl_height r + 1)
      × (avl_height r ≤ avl_height l + 1)

  pub cnt-size : (t : Tree A) → IsAvl t → avl_cnt t ≡ size t
  cnt-size leaf v = refl
  cnt-size (node l x h c r) v = omega (arith, cnt-size l v.0, cnt-size r v.1)

  pub height-le-size : (t : Tree A) → IsAvl t → avl_height t ≤ size t
  height-le-size leaf v = omega arith
  height-le-size (node l x h c r) v = omega (arith, height-le-size l v.0, height-le-size r v.1)

  -- Updating a node whose children are in balance: no 32-bit wrap-around below 2 ^ 31 nodes.
  update-eq :
      (l : Tree A) (x : A) (r : Tree A)
      → IsAvl l
      → IsAvl r
      → size l + size r < 2147483648
      → avl_update l x r
        ≡ node l x (1 + max (avl_height l) (avl_height r)) (1 + avl_cnt l + avl_cnt r) r
  unfolding avl_update
  update-eq l x r v w small =
      ap (λ h. node l x h ((1 + avl_cnt l + avl_cnt r) % 2 ^ 32) r)
        (ap (λ m. (1 + m) % 2 ^ 32) (larger-max (avl_height l) (avl_height r))
          ∙ small_mod (1 + max (avl_height l) (avl_height r))
              (omega (arith, height-le-size l v, height-le-size r w)))
      ∙ ap (λ c. node l x (1 + max (avl_height l) (avl_height r)) c r)
          (small_mod (1 + avl_cnt l + avl_cnt r) (omega (arith, cnt-size l v, cnt-size r w)))

  -- What a tree built of two subtrees around a node has.
  abbrev pub IsJoined : Tree A → A → Tree A → Tree A → Type ℓ
  IsJoined l x r t =
      IsAvl t
      × (avl_height t ≡ 1 + max (avl_height l) (avl_height r))
      × (size t ≡ suc (size l + size r))
      × (inorder t ≡ inorder l ++ (x ∷ inorder r))

  pub update-IsJoined :
      (l : Tree A) (x : A) (r : Tree A)
      → IsAvl l
      → IsAvl r
      → size l + size r < 2147483648
      → avl_height l ≤ avl_height r + 1
      → avl_height r ≤ avl_height l + 1
      → IsJoined l x r (avl_update l x r)
  update-IsJoined l x r v w small p q =
      subst (IsJoined l x r) (sym (update-eq l x r v w small))
        ((v, w, refl, refl, p, q), refl, refl, refl)

  -- What repairing a node comes to: the height of the subtree may be one less than that of a node
  -- over both subtrees, and only if they differ by two.
  abbrev pub IsRepaired : Tree A → A → Tree A → Tree A → Type ℓ
  IsRepaired l x r t =
      IsAvl t
      × (size t ≡ suc (size l + size r))
      × (inorder t ≡ inorder l ++ (x ∷ inorder r))
      × (max (avl_height l) (avl_height r) ≤ avl_height t)
      × (avl_height t ≤ 1 + max (avl_height l) (avl_height r))
      × ((avl_height l ≤ avl_height r + 1)
          → (avl_height r ≤ avl_height l + 1)
          → avl_height t ≡ 1 + max (avl_height l) (avl_height r))

  pub single_right :
      (a : Tree A) (y : A) (h c : ℕ) (b : Tree A) (x : A) (r : Tree A)
      → IsAvl (node a y h c b)
      → IsAvl r
      → size (node a y h c b) + size r < 2147483648
      → h ≡ avl_height r + 2
      → avl_height b ≤ avl_height a
      → IsRepaired (node a y h c b) x r (avl_update a y (avl_update b x r))
  single_right a y h c b x r v w small tall outer =
      let (va, vb, eh, ec, p, q) = v in
      let (vu, hu, su, iu) = update-IsJoined b x r vb w (omega arith) (omega arith) (omega arith) in
      let (vt, ht, st, it) =
        update-IsJoined a y (avl_update b x r) va vu (omega arith) (omega arith) (omega arith) in
      (
        vt,
        omega arith,
        it
            ∙ ap (λ ys. inorder a ++ (y ∷ ys)) iu
            ∙ sym (append_assoc (inorder a) (y ∷ inorder b) (x ∷ inorder r)),
        omega arith,
        omega arith,
        λ l_le r_le. omega arith,
      )

  pub double_right :
      (a : Tree A) (y : A) (h c : ℕ) (b : Tree A) (z : A) (h' c' : ℕ) (b' : Tree A) (x : A)
      (r : Tree A)
      → IsAvl (node a y h c (node b z h' c' b'))
      → IsAvl r
      → size (node a y h c (node b z h' c' b')) + size r < 2147483648
      → h ≡ avl_height r + 2
      → avl_height a < h'
      → IsRepaired
          (node a y h c (node b z h' c' b'))
          x
          r
          (avl_update (avl_update a y b) z (avl_update b' x r))
  double_right a y h c b z h' c' b' x r v w small tall inner =
      let (va, (vb, vb', eh', ec', p', q'), eh, ec, p, q) = v in
      let (vu, hu, su, iu) =
        update-IsJoined a y b va vb (omega arith) (omega arith) (omega arith) in
      let (vw, hw, sw, iw) =
        update-IsJoined b' x r vb' w (omega arith) (omega arith) (omega arith) in
      let (vt, ht, st, it) =
        update-IsJoined (avl_update a y b) z (avl_update b' x r) vu vw (omega arith) (omega arith)
          (omega arith) in
      (
        vt,
        omega arith,
        it
            ∙ ap₂ (λ us ws. us ++ (z ∷ ws)) iu iw
            ∙ append_assoc (inorder a) (y ∷ inorder b) (z ∷ (inorder b' ++ (x ∷ inorder r)))
            ∙ sym (
                append_assoc (inorder a) (y ∷ (inorder b ++ (z ∷ inorder b'))) (x ∷ inorder r)
                ∙ ap (λ ys. inorder a ++ (y ∷ ys))
                    (append_assoc (inorder b) (z ∷ inorder b') (x ∷ inorder r))),
        omega arith,
        omega arith,
        λ l_le r_le. omega arith,
      )

  pub single_left :
      (l : Tree A) (x : A) (a : Tree A) (y : A) (h c : ℕ) (b : Tree A)
      → IsAvl l
      → IsAvl (node a y h c b)
      → size l + size (node a y h c b) < 2147483648
      → h ≡ avl_height l + 2
      → avl_height a ≤ avl_height b
      → IsRepaired l x (node a y h c b) (avl_update (avl_update l x a) y b)
  single_left l x a y h c b v w small tall outer =
      let (va, vb, eh, ec, p, q) = w in
      let (vu, hu, su, iu) = update-IsJoined l x a v va (omega arith) (omega arith) (omega arith) in
      let (vt, ht, st, it) =
        update-IsJoined (avl_update l x a) y b vu vb (omega arith) (omega arith) (omega arith) in
      (
        vt,
        omega arith,
        it
            ∙ ap (λ xs. xs ++ (y ∷ inorder b)) iu
            ∙ append_assoc (inorder l) (x ∷ inorder a) (y ∷ inorder b),
        omega arith,
        omega arith,
        λ l_le r_le. omega arith,
      )

  pub double_left :
      (l : Tree A) (x : A) (b : Tree A) (z : A) (h' c' : ℕ) (b' : Tree A) (y : A) (h c : ℕ)
      (a : Tree A)
      → IsAvl l
      → IsAvl (node (node b z h' c' b') y h c a)
      → size l + size (node (node b z h' c' b') y h c a) < 2147483648
      → h ≡ avl_height l + 2
      → avl_height a < h'
      → IsRepaired l x
          (node (node b z h' c' b') y h c a)
          (avl_update (avl_update l x b) z (avl_update b' y a))
  double_left l x b z h' c' b' y h c a v w small tall inner =
      let ((vb, vb', eh', ec', p', q'), va, eh, ec, p, q) = w in
      let (vu, hu, su, iu) = update-IsJoined l x b v vb (omega arith) (omega arith) (omega arith) in
      let (vw, hw, sw, iw) =
        update-IsJoined b' y a vb' va (omega arith) (omega arith) (omega arith) in
      let (vt, ht, st, it) =
        update-IsJoined (avl_update l x b) z (avl_update b' y a) vu vw (omega arith) (omega arith)
          (omega arith) in
      (
        vt,
        omega arith,
        it
            ∙ ap₂ (λ us ws. us ++ (z ∷ ws)) iu iw
            ∙ append_assoc (inorder l) (x ∷ inorder b) (z ∷ (inorder b' ++ (y ∷ inorder a)))
            ∙ ap (λ ys. inorder l ++ (x ∷ ys))
                (sym (append_assoc (inorder b) (z ∷ inorder b') (y ∷ inorder a))),
        omega arith,
        omega arith,
        λ l_le r_le. omega arith,
      )
