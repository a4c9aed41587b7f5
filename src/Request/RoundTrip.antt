-- ===== src/Request/RoundTrip.antt =====
-- The encoding of requests: `send_req` of client.cpp and `parse_req` of server.cpp.
use redis_lite.Base.{
  ℕ, suc, ◌+◌, ◌*◌, ◌%◌, ◌^◌, ◌≤◌, ◌<◌, ◌≡◌, refl, ap, ◌∙◌, List, [], ◌∷◌, ◌++◌, some, ◌>>=◌, ltb,
  length, take, take-append_left, drop-append_left, length-append, le→ltb, arith, Bool-cases, inl,
  inr,
}
use mathlib.Core.List.{append_assoc, append-nil}
use native.Mathlib.Nat.{sub-zero}
use redis_lite.Bytes.{Str, le, of_le-le_four}
use redis_lite.Request.{
  k_max_args, read_u32, read_str, parse_strs, parse_req, request_len, request_body, send_req, sent,
  client_max_msg,
}

pub read_u32-le : (n : ℕ) (rest : List ℕ) → n < 2 ^ 32 → read_u32 (le 4 n ++ rest) ≡ some (n, rest)
unfolding read_u32
read_u32-le n rest h = ground (arith, of_le-le_four n)

pub read_str-append : (s rest : List ℕ) → read_str (s ++ rest) (length s) ≡ some (s, rest)
unfolding read_str
read_str-append s rest = rw (
  le→ltb (length (s ++ rest)) (length s) (omega (arith, length-append s rest)),
  take-append_left s rest,
  drop-append_left s rest,
)

-- Every string is short enough for its length to fit in 32 bits.
abbrev pub AreShort : List Str → Type 0
AreShort [] = Unit
AreShort (s ∷ cmd) = (length s < 2 ^ 32) × AreShort cmd

parse_strs_step :
    (k n : ℕ) (s rest : List ℕ) (out : List Str)
    → length s ≡ n
    → n < 2 ^ 32
    → parse_strs (suc k) (le 4 n ++ (s ++ rest)) out ≡ parse_strs k rest (out ++ s ∷ [])
unfolding parse_strs
parse_strs_step k n s rest out e h =
    rw (read_u32-le n (s ++ rest) h, ◌>>=◌, ← e, read_str-append s rest)

pub parse_strs-request_body :
    (cmd : List Str) (rest : List ℕ) (out : List Str)
    → AreShort cmd
    → parse_strs (length cmd) (request_body cmd ++ rest) out ≡ some (rest, out ++ cmd)
parse_strs-request_body [] rest out h = unfold parse_strs request_body in rw append-nil
parse_strs-request_body (s ∷ cmd) rest out h =
    let n = length s % 2 ^ 32 in
    let assoc : request_body (s ∷ cmd) ++ rest ≡ le 4 n ++ (s ++ (request_body cmd ++ rest)) =
      unfold request_body in ap (λ z. le 4 n ++ z) (append_assoc s (request_body cmd) rest) in
    rw
      (
        assoc,
        parse_strs_step (length cmd) n s (request_body cmd ++ rest) out (omega arith) (omega arith),
      )
      (parse_strs-request_body cmd rest (out ++ s ∷ []) h.1 ∙ rw append_assoc)

-- The message behind its length.
abbrev pub request : List Str → List ℕ
request cmd = le 4 (length cmd) ++ request_body cmd

-- A request of at most `k_max_args` strings, each shorter than 2 ^ 32 bytes, is read back.
pub parse_req-request :
    (cmd : List Str)
    → length cmd ≤ k_max_args
    → AreShort cmd
    → parse_req (request cmd) [] ≡ some cmd
unfolding parse_req
parse_req-request cmd h short =
    let body : parse_strs (length cmd) (request_body cmd) [] ≡ some ([], cmd) =
      rw append-nil at (parse_strs-request_body cmd [] [] short) in
    rw
      (
        read_u32-le (length cmd) (request_body cmd) (omega arith),
        ◌>>=◌,
        le→ltb k_max_args (length cmd) h,
      )
      (rw (sub-zero, body) refl)

-- The size of a request, with no wrap.
pub body_len : List Str → ℕ
body_len [] = 0
body_len (s ∷ cmd) = 4 + length s + body_len cmd

pub length-request_body : (cmd : List Str) → length (request_body cmd) ≡ body_len cmd
unfolding request_body body_len
length-request_body [] = refl
length-request_body (s ∷ cmd) =
    omega (arith, length-append s (request_body cmd), length-request_body cmd)

pub request_len-mod :
    (len : ℕ) (cmd : List Str) → len < 2 ^ 32 → request_len len cmd ≡ (len + body_len cmd) % 2 ^ 32
unfolding request_len body_len
request_len-mod len [] h = omega arith
request_len-mod len (s ∷ cmd) h =
    omega (arith, request_len-mod ((len + (4 + length s)) % 2 ^ 32) cmd (omega arith))

AreShort-body_len : (cmd : List Str) → body_len cmd < 2 ^ 32 → AreShort cmd
unfolding body_len
AreShort-body_len [] h = tt
AreShort-body_len (s ∷ cmd) h = (omega arith, AreShort-body_len cmd (omega arith))

length-le-body_len : (cmd : List Str) → 4 * length cmd ≤ body_len cmd
unfolding body_len
length-le-body_len [] = omega arith
length-le-body_len (s ∷ cmd) = omega (arith, length-le-body_len cmd)

-- The array that the client fills, while no length has wrapped.
wbuf_fits :
    (cmd : List Str)
    → 4 + body_len cmd ≤ client_max_msg
    → le 4 (request_len 4 cmd) ++ (le 4 (length cmd % 2 ^ 32) ++ request_body cmd)
      ≡ le 4 (length (request cmd)) ++ request cmd
wbuf_fits cmd h =
    let len : request_len 4 cmd ≡ length (request cmd) =
      omega (arith, request_len-mod 4 cmd (omega arith), length-request_body cmd) in
    let count : length cmd % 2 ^ 32 ≡ length cmd = omega (arith, length-le-body_len cmd) in
    rw (len, count)

take-length : (xs : List ℕ) (n : ℕ) → n ≡ length xs → take n xs ≡ xs
take-length xs n e = rw e (rw append-nil at (take-append_left xs []))

sent-injective : (xs ys : List ℕ) → sent xs ≡ sent ys → ys ≡ xs
sent-injective xs ys e = cc

-- `send_req` hands bytes to `write_all` only if the request fits its array, and then all of it.
send_req-sent :
    (cmd : List Str) (msg : List ℕ)
    → send_req cmd ≡ sent msg
    → (4 + body_len cmd ≤ client_max_msg) × (msg ≡ le 4 (length (request cmd)) ++ request cmd)
unfolding send_req
send_req-sent cmd msg e =
    let len = request_len 4 cmd in
    let wbuf = le 4 len ++ (le 4 (length cmd % 2 ^ 32) ++ request_body cmd) in
    elim (Bool-cases (ltb client_max_msg len)) [
      | inl big ↦ let e' = rw big at e in cc
      | inr small ↦ elim (Bool-cases (ltb (4 + client_max_msg) (length wbuf))) [
        | inl over ↦ let e' = rw (small, over) at e in cc
        | inr fits ↦
            let e' = rw (small, fits) at e in
            let h : 4 + body_len cmd ≤ client_max_msg = ground (arith, length-request_body cmd) in
            let all : 4 + len ≡ length wbuf =
              omega (arith, request_len-mod 4 cmd (omega arith), length-request_body cmd) in
            (h, sent-injective _ _ e' ∙ take-length wbuf (4 + len) all ∙ wbuf_fits cmd h)
      ]
    ]

-- Whenever `send_req` hands a message to `write_all`, it is the length of the request and then
-- the request, within the client's limit, and the server's `parse_req` reads the same strings.
pub send_req-parse_req :
    (cmd : List Str) (msg : List ℕ)
    → send_req cmd ≡ sent msg
    → (msg ≡ le 4 (length (request cmd)) ++ request cmd)
      × (length (request cmd) ≤ client_max_msg)
      × (parse_req (request cmd) [] ≡ some cmd)
send_req-parse_req cmd msg e =
    let (h, same) = send_req-sent cmd msg e in
    (
      same,
      omega (arith, length-request_body cmd),
      parse_req-request cmd (omega (arith, length-le-body_len cmd))
          (AreShort-body_len cmd (omega arith)),
    )
