-- ===== src/Dispatch/Array.antt =====
-- server.cpp: an array of nodes between `out_begin_arr` and `out_end_arr`.
use redis_lite.Base.{
  ℕ, ◌+◌, ◌-◌, ◌≡◌, refl, ◌∙◌, sym, ap, List, [], ◌∷◌, ◌++◌, Option, none, some, ◌>>=◌, ◌==◌, arith,
  length, get_elem?, length-append, if◌then◌else◌,
}
use mathlib.Core.List.{append_assoc, append-nil}
use redis_lite.Bytes.{le, overwrite}
use redis_lite.Reply.{out_str, out_dbl, out_arr, out_begin_arr, out_end_arr, tag_arr}
use redis_lite.Reply.Framing.{overwrite_middle}
use redis_lite.ZSet.{ZNode}
use redis_lite.Dispatch.Positions.{get_elem?-append}

-- The name and the score of a node.
abbrev pub out_node : Option ZNode → List ℕ → List ℕ
out_node none out = out
out_node (some m) out = out_dbl (out_str out m.name) m.score

-- Nodes, serialized one behind the other.
abbrev pub out_nodes : (ℕ → Option ZNode) → List ℕ → List ℕ → List ℕ
out_nodes nodes out [] = out
out_nodes nodes out (p ∷ ps) = out_nodes nodes (out_node (nodes p) out) ps

out_node-append : (o : Option ZNode) (out : List ℕ) → out_node o out ≡ out ++ out_node o []
unfolding out_str out_dbl
out_node-append none out = sym (append-nil out)
out_node-append (some m) out = simp append_assoc

out_nodes-append :
    (nodes : ℕ → Option ZNode) (out ps : List ℕ)
    → out_nodes nodes out ps ≡ out ++ out_nodes nodes [] ps
out_nodes-append nodes out [] = sym (append-nil out)
out_nodes-append nodes out (p ∷ ps) =
    let first = out_node (nodes p) [] in
    out_nodes-append nodes (out_node (nodes p) out) ps
    ∙ ap (λ b. b ++ out_nodes nodes [] ps) (out_node-append (nodes p) out)
    ∙ append_assoc out first (out_nodes nodes [] ps)
    ∙ ap (λ b. out ++ b) (sym (out_nodes-append nodes first ps))

end_lem :
    (out rest : List ℕ) (n : ℕ)
    → out_end_arr (((out ++ (tag_arr ∷ [])) ++ le 4 0) ++ rest) (length out + 1) n
      ≡ some (((out ++ (tag_arr ∷ [])) ++ le 4 n) ++ rest)
unfolding out_end_arr
end_lem out rest n =
    let head = out ++ (tag_arr ∷ []) in
    let place : length out + 1 ≡ length head = omega (arith, length-append out (tag_arr ∷ [])) in
    let all : (head ++ le 4 0) ++ rest ≡ out ++ (tag_arr ∷ (le 4 0 ++ rest)) =
      append_assoc head (le 4 0) rest ∙ append_assoc out (tag_arr ∷ []) (le 4 0 ++ rest) in
    let tag : get_elem? ((head ++ le 4 0) ++ rest) (length out + 1 - 1) ≡ some tag_arr =
      ap (λ b. get_elem? b (length out + 1 - 1)) all
      ∙ get_elem?-append out (tag_arr ∷ (le 4 0 ++ rest)) (length out + 1 - 1) 0 (omega arith) in
    let filled : overwrite ((head ++ le 4 0) ++ rest) (length out + 1) (le 4 n)
        ≡ (head ++ le 4 n) ++ rest =
      ap (λ b. overwrite b (length out + 1) (le 4 n)) (append_assoc head (le 4 0) rest)
      ∙ ap (λ i. overwrite (head ++ (le 4 0 ++ rest)) i (le 4 n)) place
      ∙ overwrite_middle head (le 4 0) (le 4 n) rest refl
      ∙ sym (append_assoc head (le 4 n) rest) in
    ap
      (λ o. o >>= λ t.
        if t == tag_arr
        then some (overwrite ((head ++ le 4 0) ++ rest) (length out + 1) (le 4 n))
        else none)
      tag
    ∙ ap some filled

-- The place of the count is filled.
pub out_end_arr-out_nodes :
    (nodes : ℕ → Option ZNode) (out ps : List ℕ) (n : ℕ)
    → out_end_arr (out_nodes nodes (out_begin_arr out).0 ps) (out_begin_arr out).1 n
      ≡ some (out_nodes nodes (out_arr out n) ps)
unfolding out_begin_arr out_arr
out_end_arr-out_nodes nodes out ps n =
    let head = out ++ (tag_arr ∷ []) in
    let rest = out_nodes nodes [] ps in
    let place : length (head ++ le 4 0) - 4 ≡ length out + 1 =
      omega (arith, length-append head (le 4 0), length-append out (tag_arr ∷ [])) in
    ap (λ b. out_end_arr b (length (head ++ le 4 0) - 4) n)
      (out_nodes-append nodes (head ++ le 4 0) ps)
    ∙ ap (λ i. out_end_arr ((head ++ le 4 0) ++ rest) i n) place
    ∙ end_lem out rest n
    ∙ ap some (sym (out_nodes-append nodes (head ++ le 4 n) ps))
