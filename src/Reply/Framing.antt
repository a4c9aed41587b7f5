-- ===== src/Reply/Framing.antt =====
-- server.cpp, `response_end` and `out_end_arr`: what a response and an array look like once their places have been filled.
use redis_lite.Base.{
  ℕ, ◌+◌, ◌%◌, ◌^◌, ◌≡◌, refl, true, false, List, [], ◌++◌, ltb, if◌then◌else◌, length, take, drop,
  take-append_left, drop-append_left, length-append, arith, Bool-cases, inl, inr,
}
use mathlib.Core.List.{append_assoc}
use redis_lite.Bytes.{Str, le, overwrite}
use redis_lite.Reply.{
  out_err, response_begin, response_size, response_end, k_max_msg, err_too_big, too_big_text,
}

-- Four bytes in the middle of a buffer are replaced.
pub overwrite_middle :
    (out old new rest : List ℕ)
    → length new ≡ length old
    → overwrite (out ++ (old ++ rest)) (length out) new ≡ out ++ (new ++ rest)
overwrite_middle out old new rest e =
    let skip : drop (length out + length new) (out ++ (old ++ rest)) ≡ rest =
      rw (e, ← length-append out old, ← append_assoc out old rest)
        (drop-append_left (out ++ old) rest) in
    rw (take-append_left out (old ++ rest), skip)

-- The bytes of the error reply for a response that is too big.
abbrev pub too_big_reply : List ℕ
too_big_reply = out_err [] err_too_big too_big_text

-- What stands behind the header of a response whose reply is `body`.
abbrev pub payload : List ℕ → List ℕ
payload body = if ltb k_max_msg (length body) then too_big_reply else body

pub out_err-append :
    (out : List ℕ) (code : ℕ) (msg : Str) → out_err out code msg ≡ out ++ out_err [] code msg
unfolding out_err
out_err-append out code msg = simp append_assoc

module _ (out body : List ℕ) where
  abbrev opened : List ℕ
  opened = out ++ le 4 0

  length-opened : length opened ≡ length out + 4
  length-opened = length-append out (le 4 0)

  size-body : (b : List ℕ) → response_size (opened ++ b) (length out) ≡ length b
  unfolding response_size
  size-body b = omega (arith, length-append opened b, length-opened)

  cut-opened : take (length out + 4) (opened ++ body) ≡ opened
  cut-opened = rw (← length-opened) (take-append_left opened body)

  fill : (b : List ℕ) (n : ℕ) → overwrite (opened ++ b) (length out) (le 4 n) ≡ out ++ (le 4 n ++ b)
  fill b n = rw (append_assoc out (le 4 0) b) (overwrite_middle out (le 4 0) (le 4 n) b refl)

  end_small :
      ltb k_max_msg (length body) ≡ false
      → response_end (opened ++ body) (length out) ≡ out ++ (le 4 (length body) ++ body)
  unfolding response_end
  end_small e =
      let fits : length body % 2 ^ 32 ≡ length body = ground arith in
      rw (size-body body, e, fits) (fill body (length body))

  end_big :
      ltb k_max_msg (length body) ≡ true
      → response_end (opened ++ body) (length out)
        ≡ out ++ (le 4 (length too_big_reply) ++ too_big_reply)
  unfolding response_end
  end_big e =
      let b = too_big_reply in
      let fits : length b % 2 ^ 32 ≡ length b = unfold out_err in refl in
      rw
        (
          size-body body,
          e,
          cut-opened,
          out_err-append opened err_too_big too_big_text,
          size-body b,
          fits,
        )
        (fill b (length b))

-- Whatever the reply, the output grows by one response: the length of its payload, and then the
-- payload, which is the reply itself if it has at most `k_max_msg` bytes, and an error if not.
pub response_end-framed :
    (out body : List ℕ)
    → response_end ((response_begin out).0 ++ body) (response_begin out).1
      ≡ out ++ (le 4 (length (payload body)) ++ payload body)
unfolding response_begin
response_end-framed out body = elim (Bool-cases (ltb k_max_msg (length body))) [
  | inr small ↦ rw small (end_small out body small)
  | inl big ↦ rw big (end_big out body big)
]
