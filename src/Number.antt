-- ===== src/Number.antt =====
-- `str2int` of server.cpp, with `strtoll` of the C library in base 10. An int64 is its 64-bit pattern.
use redis_lite.Base.{
  ℕ, ◌+◌, ◌-◌, ◌*◌, ◌%◌, ◌^◌, Bool, true, false, [], ◌∷◌, Option, none, some, leb, ◌==◌, ◌&&◌, ◌||◌,
  if◌then◌else◌,
}
use redis_lite.Bytes.{Str}

-- `isspace` in the C locale
abbrev pub is_space : ℕ → Bool
is_space b = (b == 32) || (leb 9 b && leb b 13)

abbrev pub is_digit : ℕ → Bool
is_digit b = leb 48 b && leb b 57

unfoldable pub skip_spaces : Str → Str
skip_spaces [] = []
skip_spaces (b ∷ s) = let rest = skip_spaces s in if is_space b then rest else b ∷ s

-- The number that the digits spell after `n`, and what is behind them.
unfoldable pub digits : ℕ → Str → ℕ × Str
digits n [] = (n, [])
digits n (b ∷ s) =
    let rest = digits (n * 10 + (b - 48)) s in if is_digit b then rest else (n, b ∷ s)

-- Out of range, the nearest int64.
abbrev pub to_int64 : Bool → ℕ → ℕ
to_int64 negative n =
    if negative
    then (if leb (2 ^ 63) n then 2 ^ 63 else (2 ^ 64 - n) % 2 ^ 64)
    else (if leb (2 ^ 63) n then 2 ^ 63 - 1 else n)

-- The sign.
unfoldable pub sign : Str → Bool × Str
sign [] = (false, [])
sign (b ∷ s) = if b == 45 then (true, s) else (if b == 43 then (false, s) else (false, b ∷ s))

abbrev pub starts_with_digit : Str → Bool
starts_with_digit [] = false
starts_with_digit (b ∷ s) = is_digit b

-- The number and the text behind it; with no digits it is 0 and the whole text. The terminating NUL
-- byte, like any other, ends the digits.
unfoldable pub strtoll : Str → ℕ × Str
strtoll s =
    let (negative, t) = sign (skip_spaces s) in
    if starts_with_digit t
    then (let (n, rest) = digits 0 t in (to_int64 negative n, rest))
    else (0, s)

abbrev pub is_end : Str → Bool
is_end [] = true
is_end (_ ∷ _) = false

-- `none` is the return value false.
unfoldable pub str2int : Str → Option ℕ
str2int s = let (n, rest) = strtoll s in if is_end rest then some n else none
