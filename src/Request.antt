-- ===== src/Request.antt =====
-- The request protocol: `parse_req` of server.cpp and `send_req` of client.cpp.
pub mod RoundTrip
pub mod Exact
use redis_lite.Base.{
  ℕ, zero, suc, ◌+◌, ◌-◌, ◌*◌, ◌%◌, ◌^◌, Bool, true, false, List, [], ◌∷◌, ◌++◌, Option, none, some,
  ◌>>=◌, ltb, if◌then◌else◌, length, take, drop,
}
use redis_lite.Bytes.{Str, le, of_le}

abbrev pub k_max_args : ℕ
k_max_args = 200 * 1000

-- What is left between `cur` and `end` is the list.
unfoldable pub read_u32 : List ℕ → Option (ℕ × List ℕ)
read_u32 cur = if ltb (length cur) 4 then none else some (of_le (take 4 cur), drop 4 cur)

unfoldable pub read_str : List ℕ → ℕ → Option (Str × List ℕ)
read_str cur n = if ltb (length cur) n then none else some (take n cur, drop n cur)

-- The loop of `parse_req`; each round adds one string, so `nstr - out.size()` rounds are left.
unfoldable pub parse_strs : ℕ → List ℕ → List Str → Option (List ℕ × List Str)
parse_strs zero cur out = some (cur, out)
parse_strs (suc k) cur out = read_u32 cur >>= λ (len, cur').
    read_str cur' len >>= λ (s, cur''). parse_strs k cur'' (out ++ s ∷ [])

abbrev pub is_empty : List ℕ → Bool
is_empty [] = true
is_empty (_ ∷ _) = false

-- `none` is the return value -1.
unfoldable pub parse_req : List ℕ → List Str → Option (List Str)
parse_req input out = read_u32 input >>= λ (nstr, cur).
    if ltb k_max_args nstr
    then none
    else (parse_strs (nstr - length out) cur out >>= λ (rest, out').
        if is_empty rest then some out' else none)

-- client.cpp

abbrev pub client_max_msg : ℕ
client_max_msg = 4096

-- `len += 4 + s.size()`, in 32 bits.
unfoldable pub request_len : ℕ → List Str → ℕ
request_len len [] = len
request_len len (s ∷ cmd) = request_len ((len + (4 + length s)) % 2 ^ 32) cmd

-- The writes of the second loop.
unfoldable pub request_body : List Str → List ℕ
request_body [] = []
request_body (s ∷ cmd) = le 4 (length s % 2 ^ 32) ++ (s ++ request_body cmd)

-- `send_req` refuses, writes past its array, or hands bytes to `write_all`.
pub data Sending : Type 0 where
  refused overrun : Sending
  sent : List ℕ → Sending

unfoldable pub send_req : List Str → Sending
unfolding request_len request_body
send_req cmd =
    let len = request_len 4 cmd in
    let wbuf = le 4 len ++ (le 4 (length cmd % 2 ^ 32) ++ request_body cmd) in
    if ltb client_max_msg len
    then refused
    else if ltb (4 + client_max_msg) (length wbuf)
    then overrun
    else sent (take (4 + len) wbuf)
