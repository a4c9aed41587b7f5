-- ===== src/Bytes.antt =====
-- Byte buffers. A byte is a number below 256; a `memcpy` from or to a machine word is little
-- endian, as on the hosts that server.cpp and client.cpp are written for.
use redis_lite.Base.{
  ℕ, zero, suc, ◌+◌, ◌*◌, ◌/◌, ◌%◌, ◌^◌, ◌<◌, ◌≡◌, List, [], ◌∷◌, ◌++◌, length, take, drop, arith,
}

abbrev pub Str : Type 0
Str = List ℕ

-- `buf_append`
abbrev pub buf_append : List ℕ → List ℕ → List ℕ
buf_append buf bytes = buf ++ bytes

-- `buf_consume`
abbrev pub buf_consume : List ℕ → ℕ → List ℕ
buf_consume buf n = drop n buf

-- The `w` low bytes of a word.
abbrev pub le : ℕ → ℕ → List ℕ
le zero n = []
le (suc w) n = n % 256 ∷ le w (n / 256)

abbrev pub of_le : List ℕ → ℕ
of_le [] = 0
of_le (b ∷ bs) = b + 256 * of_le bs

abbrev pub IsBytes : List ℕ → Type 0
IsBytes [] = Unit
IsBytes (b ∷ bs) = (b < 256) × IsBytes bs

-- `memcpy(&buf[i], bytes, length bytes)`
abbrev pub overwrite : List ℕ → ℕ → List ℕ → List ℕ
overwrite buf i bytes = take i buf ++ (bytes ++ drop (i + length bytes) buf)

pub of_le-le_four : (n : ℕ) → n < 2 ^ 32 → of_le (le 4 n) ≡ n
of_le-le_four n h = omega arith

pub of_le-le_eight : (n : ℕ) → n < 2 ^ 64 → of_le (le 8 n) ≡ n
of_le-le_eight n h = omega arith

pub le-of_le_four :
    (a b c d : ℕ)
    → a < 256
    → b < 256
    → c < 256
    → d < 256
    → le 4 (of_le (a ∷ b ∷ c ∷ d ∷ [])) ≡ a ∷ b ∷ c ∷ d ∷ []
le-of_le_four a b c d p q r s = ground arith
