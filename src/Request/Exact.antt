-- ===== src/Request/Exact.antt =====
-- The inputs that `parse_req` of server.cpp accepts.
use redis_lite.Base.{
  ℕ, zero, suc, ◌-◌, ◌%◌, ◌^◌, ◌≤◌, ◌<◌, ◌≡◌, ◌↔◌, refl, ap, sym, ◌∙◌, true, List, [], ◌∷◌, ◌++◌,
  Option, none, some, ◌>>=◌, ltb, if◌then◌else◌, length, drop, take-append-drop, length-take,
  le→ltb, arith, Bool-cases, inl, inr,
}
use mathlib.Core.Path.{ap₂, subst}
use mathlib.Core.List.{append_assoc, append-nil}
use native.Mathlib.Nat.{sub-zero}
use redis_lite.Bytes.{Str, le, of_le, IsBytes, le-of_le_four}
use redis_lite.Request.{
  k_max_args, read_u32, read_str, parse_strs, parse_req, request_body, is_empty,
}
use redis_lite.Request.RoundTrip.{AreShort, request, parse_req-request}

-- Inversion of a chain that succeeds.
>>=-eq-some {ℓ κ} :
    {A : Type ℓ} {B : Type κ} (o : Option A) (f : A → Option B) {b : B}
    → (o >>= f) ≡ some b
    → (a : A) × (o ≡ some a) × (f a ≡ some b)
>>=-eq-some (some a) f h = (a, refl, h)
>>=-eq-some none f h = cc

some_pair {ℓ κ} :
    {A : Type ℓ} {B : Type κ} (a a' : A) (b b' : B)
    → ◌≡◌ {A = Option (A × B)} (some (a, b)) (some (a', b'))
    → (a ≡ a') × (b ≡ b')
some_pair a a' b b' e = (cc, cc)

read_u32-eq-some :
    (cur : List ℕ) (n : ℕ) (rest : List ℕ)
    → IsBytes cur
    → read_u32 cur ≡ some (n, rest)
    → (cur ≡ le 4 n ++ rest) × (n < 2 ^ 32) × IsBytes rest
unfolding read_u32
read_u32-eq-some (a ∷ b ∷ c ∷ d ∷ cur) n rest h e =
    let (pa, (pb, (pc, (pd, pe)))) = h in
    let w = le-of_le_four a b c d pa pb pc pd in
    let e' = rw (le→ltb (length (a ∷ b ∷ c ∷ d ∷ cur)) 4 (omega arith)) at e in
    let (p, q) = some_pair (of_le (a ∷ b ∷ c ∷ d ∷ [])) n cur rest e' in
    (ap₂ (λ x y. x ++ y) (sym w ∙ ap (le 4) p) q, omega arith, subst IsBytes q pe)
read_u32-eq-some (a ∷ b ∷ c ∷ []) n rest h e = cc
read_u32-eq-some (a ∷ b ∷ []) n rest h e = cc
read_u32-eq-some (a ∷ []) n rest h e = cc
read_u32-eq-some [] n rest h e = cc

IsBytes-drop : (n : ℕ) (xs : List ℕ) → IsBytes xs → IsBytes (drop n xs)
IsBytes-drop zero xs h = h
IsBytes-drop (suc n) [] h = h
IsBytes-drop (suc n) (x ∷ xs) h = IsBytes-drop n xs h.1

read_str-eq-some :
    (cur : List ℕ) (n : ℕ) (s rest : List ℕ)
    → IsBytes cur
    → read_str cur n ≡ some (s, rest)
    → (cur ≡ s ++ rest) × (length s ≡ n) × IsBytes rest
unfolding read_str
read_str-eq-some cur n s rest h e = elim (Bool-cases (ltb (length cur) n)) [
  | inl short ↦ let e' = rw short at e in cc
  | inr enough ↦
      let e' = rw enough at e in
      let (p, q) = some_pair _ _ _ _ e' in
      (
        sym (take-append-drop n cur) ∙ ap₂ (λ x y. x ++ y) p q,
        ap length (sym p) ∙ ground (arith, length-take n cur),
        subst IsBytes q (IsBytes-drop n cur h),
      )
]

-- One string, read from the front of the encoding of a list.
encoded :
    (n : ℕ) (c s d : List ℕ) (cmd : List Str) (rest : List ℕ)
    → n < 2 ^ 32
    → length s ≡ n
    → c ≡ s ++ d
    → d ≡ request_body cmd ++ rest
    → le 4 n ++ c ≡ request_body (s ∷ cmd) ++ rest
unfolding request_body
encoded n c s d cmd rest short size p q =
    let w : length s % 2 ^ 32 ≡ n = omega arith in
    rw (w, p, q) (ap (λ z. le 4 n ++ z) (sym (append_assoc s (request_body cmd) rest)))

parse_strs-eq-some :
    (k : ℕ) (cur : List ℕ) (out : List Str) (rest : List ℕ) (all : List Str)
    → IsBytes cur
    → parse_strs k cur out ≡ some (rest, all)
    → (cmd : List Str) × (all ≡ out ++ cmd)
      × (length cmd ≡ k)
      × (cur ≡ request_body cmd ++ rest)
      × AreShort cmd
unfolding parse_strs
parse_strs-eq-some zero cur out rest all h e =
    let (p, q) = some_pair _ _ _ _ e in
    ([], sym q ∙ sym (append-nil out), refl, unfold request_body in p, tt)
parse_strs-eq-some (suc k) cur out rest all h e =
    let ((n, c), e₁, e') = >>=-eq-some (read_u32 cur) _ e in
    let ((s, d), e₂, e₃) = >>=-eq-some (read_str c n) _ e' in
    let (p₁, short, b₁) = read_u32-eq-some cur n c h e₁ in
    let (p₂, size, b₂) = read_str-eq-some c n s d b₁ e₂ in
    let (cmd, q, count, p₃, shorts) = parse_strs-eq-some k d (out ++ s ∷ []) rest all b₂ e₃ in
    (
      s ∷ cmd,
      q ∙ append_assoc out (s ∷ []) cmd,
      ap suc count,
      p₁ ∙ encoded n c s d cmd rest short size p₂ p₃,
      (omega arith, shorts),
    )

is_empty-eq-true : (xs : List ℕ) → is_empty xs ≡ true → xs ≡ []
is_empty-eq-true [] h = refl
is_empty-eq-true (x ∷ xs) h = cc

abbrev finish : List ℕ × List Str → Option (List Str)
finish r = if is_empty r.0 then some r.1 else none

finish-eq-some :
    (rest : List ℕ) (all cmd : List Str) → finish (rest, all) ≡ some cmd → (rest ≡ []) × (all ≡ cmd)
finish-eq-some [] all cmd e = (refl, cc)
finish-eq-some (x ∷ rest) all cmd e = cc

counted :
    (n : ℕ) (c : List ℕ) (cmd : List Str)
    → IsBytes c
    → (if ltb k_max_args n then none else (parse_strs (n - 0) c [] >>= finish)) ≡ some cmd
    → (n ≡ length cmd) × (c ≡ request_body cmd) × (length cmd ≤ k_max_args) × AreShort cmd
counted n c cmd b e = elim (Bool-cases (ltb k_max_args n)) [
  | inl many ↦ let e' = rw many at e in cc
  | inr few ↦
      let ((rest, all), e₁, e₂) =
        >>=-eq-some (parse_strs n c []) finish (rw (few, sub-zero) at e) in
      let (xs, same, size, p, shorts) = parse_strs-eq-some n c [] rest all b e₁ in
      let (none_left, done) = finish-eq-some rest all cmd e₂ in
      let out : xs ≡ cmd = sym same ∙ done in
      (
        sym size ∙ ap length out,
        p ∙ rw (none_left, append-nil) (ap request_body out),
        rw (← out) (ground arith),
        subst AreShort out shorts,
      )
]

accepted :
    (input : List ℕ) (cmd : List Str)
    → IsBytes input
    → parse_req input [] ≡ some cmd
    → (input ≡ request cmd) × (length cmd ≤ k_max_args) × AreShort cmd
unfolding parse_req
accepted input cmd h e =
    let ((n, c), e₁, e₂) = >>=-eq-some (read_u32 input) _ e in
    let (p, short, b) = read_u32-eq-some input n c h e₁ in
    let (size, body, few, shorts) = counted n c cmd b e₂ in
    (p ∙ ap₂ (λ x y. le 4 x ++ y) size body, few, shorts)

-- On bytes, `parse_req` accepts exactly the requests of at most `k_max_args` strings, each
-- shorter than 2 ^ 32 bytes, and returns their strings: no truncated, oversized or trailing
-- input is accepted, and no input is read as two commands.
pub parse_req-eq-some_iff :
    (input : List ℕ) (cmd : List Str)
    → IsBytes input
    → (parse_req input [] ≡ some cmd)
      ↔ ((input ≡ request cmd) × (length cmd ≤ k_max_args) × AreShort cmd)
parse_req-eq-some_iff input cmd h =
    (accepted input cmd h, λ (p, q, r). rw p (parse_req-request cmd q r))
