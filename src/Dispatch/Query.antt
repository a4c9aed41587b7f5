-- ===== src/Dispatch/Query.antt =====
-- server.cpp: `do_zquery`, from the seek to the output, on a valid sorted set.
use redis_lite.Base.{
  ℕ, zero, suc, ◌+◌, ◌*◌, ◌/◌, ◌%◌, ◌^◌, ◌<◌, ◌≤◌, ◌≡◌, ◌⊎◌, inl, inr, refl, ◌∙◌, sym, ap, true,
  false, List, [], Option, none, some, ◌>>=◌, arith, length, take, drop, get_elem?, Option-cases,
  Returns, ltb, lt→ltb, le→ltb,
}
use redis_lite.Bytes.{Str}
use redis_lite.HashTable.{Chain}
use redis_lite.Avl.Inorder.{inorder, size}
use redis_lite.Avl.Offset.{int_rank}
use redis_lite.Reply.{out_str, out_dbl, out_arr, out_begin_arr, out_end_arr}
use redis_lite.ZSet.{ZNode, ZSet, zless_key, zset_seekge}
use redis_lite.ZSet.Valid.{IsZSet, zset_seekge-first}
use redis_lite.Dispatch.Sets.{znode_offset, query_loop, query_zset}
use redis_lite.Dispatch.Array.{out_nodes, out_node, out_end_arr-out_nodes}
use redis_lite.Dispatch.Place.{IsReached, alive, length-inorder, znode_offset-IsReached}
use redis_lite.Dispatch.Positions.{
  skip, first_at, drop_at, drop_out, in_range, out_range, take_nil, length_le, there,
}

loop_turn :
    (fuel : ℕ) (z : ZSet) (limit p n : ℕ) (out : List ℕ) (m : ZNode) (o : Option ℕ)
    → ltb n limit ≡ true
    → z.nodes p ≡ some m
    → znode_offset z (some p) 1 ≡ some o
    → query_loop (suc fuel) z limit (some p) n out
      ≡ query_loop fuel z limit o (n + 2) (out_dbl (out_str out m.name) m.score)
unfolding query_loop
loop_turn fuel z limit p n out m o e f g = rw (query_loop, e, f, ◌>>=◌, g) refl

loop_stop :
    (fuel : ℕ) (z : ZSet) (limit p n : ℕ) (out : List ℕ)
    → ltb n limit ≡ false
    → query_loop (suc fuel) z limit (some p) n out ≡ some (n, out)
unfolding query_loop
loop_stop fuel z limit p n out e = rw (query_loop, e) refl

loop_end :
    (fuel : ℕ) (z : ZSet) (limit n : ℕ) (out : List ℕ)
    → query_loop (suc fuel) z limit none n out ≡ some (n, out)
unfolding query_loop
loop_end fuel z limit n out = refl

-- The next node, or NULL behind the last one.
next_at :
    (xs : List ℕ) (j : ℕ) (o : Option ℕ)
    → j < length xs
    → length xs < 2 ^ 63
    → IsReached xs j 1 o
    → o ≡ get_elem? xs (suc j)
next_at xs j o lt small (inl (inl low, e)) = absurd (omega (arith, low))
next_at xs j o lt small (inl (inr high, e)) = e ∙ sym (out_range xs (suc j) (omega (arith, high)))
next_at xs j o lt small (inr (i, rank, _, e)) = e ∙ ap (get_elem? xs) (omega (arith, rank))

query_run :
    (z : ZSet) (score : ℕ) (name : Str) (offset limit : ℕ) (out : List ℕ) (a o : Option ℕ) (n : ℕ)
    (out' : List ℕ)
    → zset_seekge z score name ≡ a
    → znode_offset z a offset ≡ some o
    → query_loop (suc (suc (size z.root))) z limit o 0 (out_begin_arr out).0 ≡ some (n, out')
    → query_zset z score name offset limit out ≡ out_end_arr out' (out_begin_arr out).1 (n % 2 ^ 32)
unfolding query_zset
query_run z score name offset limit out a o n out' e f g = rw (e, f, ◌>>=◌, g) refl

no_node : (z : ZSet) (offset : ℕ) → znode_offset z none offset ≡ some none
unfolding znode_offset
no_node z offset = refl

-- With `i` nodes less than the tuple: nothing if there is no other, or if the offset leads out of the
-- set; otherwise, from the position `i` plus the offset on, as many nodes as half of the limit, rounded
-- up, or all that are left.
abbrev pub IsListed : ZSet → ℕ → Str → ℕ → ℕ → List ℕ → List ℕ → Type 0
IsListed z score name offset limit out out' =
    let xs = inorder z.root in
    let i = skip (λ q. zless_key score name (z.nodes q)) xs in
    (((length xs ≤ i)
        ⊎ ((int_rank offset + i < 2 ^ 63) ⊎ (2 ^ 63 + length xs ≤ int_rank offset + i)))
      × (out' ≡ out_arr out 0))
    ⊎ ((j : ℕ) × (i < length xs)
        × (2 ^ 63 + j ≡ int_rank offset + i)
        × (j < length xs)
        × (let ps = take ((limit + 1) / 2) (drop j xs) in
            out' ≡ out_nodes z.nodes (out_arr out (2 * length ps % 2 ^ 32)) ps))

module _ (z : ZSet) (nb ob : List (Chain ℕ)) (v : IsZSet z nb ob) (small : size z.root < 2147483648)
    (limit : ℕ) where
  abbrev xs : List ℕ
  xs = inorder z.root

  abbrev listed : ℕ → List ℕ → List ℕ → Option (ℕ × List ℕ)
  listed n out ps = some (n + 2 * length ps, out_nodes z.nodes out ps)

  -- A turn at the node `p`, by what follows it.
  turn :
      (fuel j k n : ℕ) (out : List ℕ) (p : ℕ)
      → get_elem? xs j ≡ some p
      → length xs < j + suc fuel
      → limit ≤ n + 2 * k
      → n + 2 * k < limit + 2
      → ((k' : ℕ) (out' : List ℕ)
          → suc j ≤ length xs
          → limit ≤ n + 2 + 2 * k'
          → n + 2 + 2 * k' < limit + 2
          → query_loop fuel z limit (get_elem? xs (suc j)) (n + 2) out'
            ≡ listed (n + 2) out' (take k' (drop (suc j) xs)))
      → query_loop (suc fuel) z limit (some p) n out ≡ listed n out (take k (drop j xs))
  turn fuel j zero n out p e enough low high ih =
      loop_stop fuel z limit p n out (le→ltb n limit (omega (arith, low)))
      ∙ ap (λ c. some (c, out)) (omega arith)
  turn fuel j (suc k) n out p e enough low high ih =
      let (m, g) = alive z nb ob p v (there xs j p e) in
      let lt = in_range xs j p e in
      let (o, moved, at) = znode_offset-IsReached z nb ob j p 1 v small (omega arith) e in
      let next = next_at xs j o lt (omega (arith, small, length-inorder z.root)) at in
      let out' = out_dbl (out_str out m.name) m.score in
      let qs = take k (drop (suc j) xs) in
      loop_turn fuel z limit p n out m o (lt→ltb n limit (omega (arith, high))) g moved
      ∙ ap (λ a. query_loop fuel z limit a (n + 2) out') next
      ∙ ih k out' lt (omega (arith, low)) (omega (arith, high))
      ∙ ap (λ c. some (c, out_nodes z.nodes out' qs)) (omega arith)
      ∙ sym (
          ap (λ ps. listed n out (take (suc k) ps)) (drop_at xs j p e)
          ∙ ap (λ a. some (n + 2 * suc (length qs), out_nodes z.nodes (out_node a out) qs)) g)

  -- With `k` turns left to the limit, from the position `j`.
  loop_lem :
      (fuel j k n : ℕ) (out : List ℕ)
      → j ≤ length xs
      → length xs < j + fuel
      → limit ≤ n + 2 * k
      → n + 2 * k < limit + 2
      → query_loop fuel z limit (get_elem? xs j) n out ≡ listed n out (take k (drop j xs))
  loop_lem zero j k n out lt enough low high = absurd (omega (arith, lt, enough))
  loop_lem (suc fuel) j k n out lt enough low high = elim (Option-cases (get_elem? xs j)) [
    | inl e ↦
        ap (λ o. query_loop (suc fuel) z limit o n out) e
        ∙ loop_end fuel z limit n out
        ∙ ap (λ c. some (c, out)) (omega arith)
        ∙ sym
            (ap (λ ps. listed n out (take k ps)) (drop_out xs j e) ∙ ap (listed n out) (take_nil k))
    | inr (p, e) ↦
        ap (λ o. query_loop (suc fuel) z limit o n out) e
        ∙ turn fuel j k n out p e enough low high (λ k' out' lt' low' high'.
          loop_lem fuel (suc j) k' (n + 2) out' lt' (omega (arith, enough)) low' high')
  ]

  empty_run :
      (score : ℕ) (name : Str) (offset : ℕ) (out : List ℕ) (a : Option ℕ)
      → zset_seekge z score name ≡ a
      → znode_offset z a offset ≡ some none
      → query_zset z score name offset limit out ≡ some (out_arr out 0)
  empty_run score name offset out a e f =
      query_run z score name offset limit out a none 0 (out_begin_arr out).0 e f
        (loop_end (suc (size z.root)) z limit 0 (out_begin_arr out).0)
      ∙ out_end_arr-out_nodes z.nodes out [] 0

  -- On a valid sorted set below 2 ^ 31 nodes the query does not fault.
  pub query_zset-Listed :
      (score : ℕ) (name : Str) (offset : ℕ) (out : List ℕ)
      → offset < 2 ^ 64
      → Returns (IsListed z score name offset limit out) (query_zset z score name offset limit out)
  query_zset-Listed score name offset out short =
      let is_less = λ (q : ℕ). zless_key score name (z.nodes q) in
      let i = skip is_less xs in
      let seek = zset_seekge-first z nb ob score name v ∙ sym (first_at is_less xs) in
      elim (Option-cases (get_elem? xs i)) [
        | inl e ↦ (
          out_arr out 0,
          empty_run score name offset out none (seek ∙ e) (no_node z offset),
          inl (inl (length_le xs i e), refl),
        )
        | inr (p, e) ↦
            let (o, moved, at) = znode_offset-IsReached z nb ob i p offset v small short e in
            elim at [
              | inl (out_of, gone) ↦ (
                out_arr out 0,
                empty_run score name offset out (some p) (seek ∙ e) (moved ∙ ap some gone),
                inl (inr out_of, refl),
              )
              | inr (j, rank, lt, here) ↦
                  let k = (limit + 1) / 2 in
                  let ps = take k (drop j xs) in
                  let run =
                    ap (λ a. query_loop (suc (suc (size z.root))) z limit a 0 (out_begin_arr out).0)
                      here
                    ∙ loop_lem (suc (suc (size z.root))) j k 0 (out_begin_arr out).0
                        (omega (arith, lt)) (omega (arith, length-inorder z.root)) (omega arith)
                        (omega arith) in
                  (
                    out_nodes z.nodes (out_arr out (2 * length ps % 2 ^ 32)) ps,
                    query_run z score name offset limit out (some p) o (0 + 2 * length ps)
                          (out_nodes z.nodes (out_begin_arr out).0 ps) (seek ∙ e) moved run
                        ∙ ap
                            (λ n.
                              out_end_arr (out_nodes z.nodes (out_begin_arr out).0 ps)
                                (out_begin_arr out).1 (n % 2 ^ 32))
                            (omega arith)
                        ∙ out_end_arr-out_nodes z.nodes out ps (2 * length ps % 2 ^ 32),
                    inr (j, in_range xs i p e, rank, lt, refl),
                  )
            ]
      ]
