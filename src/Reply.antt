-- ===== src/Reply.antt =====
-- The replies of server.cpp: tagged values appended to the output buffer, and the length header
-- of a response. An int64 or a double stands as its 64-bit pattern.
pub mod Framing
use redis_lite.Base.{
  ℕ, zero, suc, ◌+◌, ◌-◌, ◌*◌, ◌%◌, ◌^◌, Bool, true, false, List, [], ◌∷◌, ◌++◌, Option, none, some,
  ◌>>=◌, ltb, ◌==◌, if◌then◌else◌, length, take, drop, get_elem?,
}
use redis_lite.Bytes.{Str, le, of_le, buf_append, overwrite}

abbrev pub tag_nil : ℕ
tag_nil = 0

abbrev pub tag_err : ℕ
tag_err = 1

abbrev pub tag_str : ℕ
tag_str = 2

abbrev pub tag_int : ℕ
tag_int = 3

abbrev pub tag_dbl : ℕ
tag_dbl = 4

abbrev pub tag_arr : ℕ
tag_arr = 5

abbrev pub err_unknown : ℕ
err_unknown = 1

abbrev pub err_too_big : ℕ
err_too_big = 2

abbrev pub err_bad_typ : ℕ
err_bad_typ = 3

abbrev pub err_bad_arg : ℕ
err_bad_arg = 4

abbrev pub buf_append_u8 : List ℕ → ℕ → List ℕ
buf_append_u8 buf b = buf ++ (b ∷ [])

abbrev pub buf_append_u32 : List ℕ → ℕ → List ℕ
buf_append_u32 buf n = buf_append buf (le 4 n)

abbrev pub buf_append_i64 : List ℕ → ℕ → List ℕ
buf_append_i64 buf n = buf_append buf (le 8 n)

abbrev pub buf_append_dbl : List ℕ → ℕ → List ℕ
buf_append_dbl buf n = buf_append buf (le 8 n)

unfoldable pub out_nil : List ℕ → List ℕ
out_nil out = buf_append_u8 out tag_nil

unfoldable pub out_str : List ℕ → Str → List ℕ
out_str out s = buf_append (buf_append_u32 (buf_append_u8 out tag_str) (length s % 2 ^ 32)) s

unfoldable pub out_int : List ℕ → ℕ → List ℕ
out_int out val = buf_append_i64 (buf_append_u8 out tag_int) val

unfoldable pub out_dbl : List ℕ → ℕ → List ℕ
out_dbl out val = buf_append_dbl (buf_append_u8 out tag_dbl) val

unfoldable pub out_err : List ℕ → ℕ → Str → List ℕ
out_err out code msg =
    buf_append
      (buf_append_u32 (buf_append_u32 (buf_append_u8 out tag_err) code) (length msg % 2 ^ 32)) msg

unfoldable pub out_arr : List ℕ → ℕ → List ℕ
out_arr out n = buf_append_u32 (buf_append_u8 out tag_arr) n

-- The buffer and the `ctx` argument of `out_end_arr`.
unfoldable pub out_begin_arr : List ℕ → List ℕ × ℕ
out_begin_arr out =
    let out' = buf_append_u32 (buf_append_u8 out tag_arr) 0 in (out', length out' - 4)

-- `none` is the failed assertion.
unfoldable pub out_end_arr : List ℕ → ℕ → ℕ → Option (List ℕ)
out_end_arr out ctx n = get_elem? out (ctx - 1) >>= λ tag.
    if tag == tag_arr then some (overwrite out ctx (le 4 n)) else none

-- `32 << 20`
abbrev pub k_max_msg : ℕ
k_max_msg = 33554432

-- "response is too big."
abbrev pub too_big_text : Str
too_big_text =
    b'r' ∷ b'e' ∷ b's' ∷ b'p' ∷ b'o' ∷ b'n' ∷ b's' ∷ b'e' ∷ b' ' ∷ b'i' ∷ b's' ∷ b' ' ∷ b't' ∷ b'o'
    ∷ b'o' ∷ b' ' ∷ b'b' ∷ b'i' ∷ b'g' ∷ b'.' ∷ []

-- The buffer and the position of the header.
unfoldable pub response_begin : List ℕ → List ℕ × ℕ
response_begin out = (buf_append_u32 out 0, length out)

unfoldable pub response_size : List ℕ → ℕ → ℕ
response_size out header = length out - header - 4

unfoldable pub response_end : List ℕ → ℕ → List ℕ
response_end out header =
    let big = out_err (take (header + 4) out) err_too_big too_big_text in
    if ltb k_max_msg (response_size out header)
    then overwrite big header (le 4 (response_size big header % 2 ^ 32))
    else overwrite out header (le 4 (response_size out header % 2 ^ 32))
