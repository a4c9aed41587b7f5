-- ===== src/Dispatch/Arguments.antt =====
-- server.cpp: `do_zquery` by what its arguments are read as.
use redis_lite.Base.{
  ℕ, ◌^◌, ◌<◌, ◌≡◌, inl, inr, refl, ◌∙◌, sym, ap, Bool, true, false, List, none, some, ◌>>=◌,
  if◌then◌else◌, arith, Bool-cases,
}
use mathlib.Core.Option.{some-injective}
use redis_lite.Bytes.{Str}
use redis_lite.Number.{
  str2int, strtoll, to_int64, digits, sign, skip_spaces, starts_with_digit, is_end,
}
use redis_lite.Db.{Db}
use redis_lite.Reply.{out_arr, out_err, err_bad_typ, err_bad_arg}
use redis_lite.ZSet.{ZSet}
use redis_lite.Dispatch.Words.{expect_zset_text, expect_fp_number, expect_int}
use redis_lite.Dispatch.Sets.{
  Found, wrong_type, expect_zset, get_zset, query_zset, not_positive, str2dbl, do_zquery,
  is_wrong_type,
}

to_int64_short : (negative : Bool) (n : ℕ) → to_int64 negative n < 2 ^ 64
to_int64_short true n = ground arith
to_int64_short false n = ground arith

strtoll_short : (s : Str) → (strtoll s).0 < 2 ^ 64
unfolding strtoll
strtoll_short s =
    let t = sign (skip_spaces s) in
    elim (Bool-cases (starts_with_digit t.1)) [
      | inl e ↦ rw e (to_int64_short t.0 (digits 0 t.1).0)
      | inr e ↦ rw e (omega arith)
    ]

-- An int64 is a pattern of 64 bits.
pub str2int_short : (s : Str) (n : ℕ) → str2int s ≡ some n → n < 2 ^ 64
unfolding str2int
str2int_short s n e = elim (Bool-cases (is_end (strtoll s).1)) [
  | inl f ↦
      let same =
        some-injective (strtoll s).0 n
          (sym (ap (λ b. if b then some (strtoll s).0 else none) f) ∙ e) in
      omega (arith, same, strtoll_short s)
  | inr f ↦ absurd (not_some (sym (ap (λ b. if b then some (strtoll s).0 else none) f) ∙ e))
]
  where
    not_some : {a : ℕ} → none ≡ some a → ⊥
    not_some h = cc

module _ (strtod : Str → ℕ × ℕ) where
  -- The arguments are read.
  pub record AreRead (score offset limit : Str) (val off lim : ℕ) : Type 0 where
    pub val_read : str2dbl strtod score ≡ some val
    pub off_read : str2int offset ≡ some off
    pub lim_read : str2int limit ≡ some lim

  pub zquery_bad_score :
      (d : Db ZSet) (key score name offset limit : Str) (out : List ℕ)
      → str2dbl strtod score ≡ none
      → do_zquery strtod d key score name offset limit out
        ≡ some (d, out_err out err_bad_arg expect_fp_number)
  unfolding do_zquery
  zquery_bad_score d key score name offset limit out e = rw (do_zquery, e) refl

  pub zquery_bad_offset :
      (d : Db ZSet) (key score name offset limit : Str) (out : List ℕ) (val : ℕ)
      → str2dbl strtod score ≡ some val
      → str2int offset ≡ none
      → do_zquery strtod d key score name offset limit out
        ≡ some (d, out_err out err_bad_arg expect_int)
  unfolding do_zquery
  zquery_bad_offset d key score name offset limit out val e f = rw (do_zquery, e, f) refl

  pub zquery_bad_limit :
      (d : Db ZSet) (key score name offset limit : Str) (out : List ℕ) (val off : ℕ)
      → str2dbl strtod score ≡ some val
      → str2int offset ≡ some off
      → str2int limit ≡ none
      → do_zquery strtod d key score name offset limit out
        ≡ some (d, out_err out err_bad_arg expect_int)
  unfolding do_zquery
  zquery_bad_limit d key score name offset limit out val off e f g = rw (do_zquery, e, f, g) refl

  pub zquery_wrong :
      (d d₁ : Db ZSet) (key score name offset limit : Str) (out : List ℕ) (val off lim : ℕ)
      → AreRead score offset limit val off lim
      → expect_zset d key ≡ some (wrong_type, d₁)
      → do_zquery strtod d key score name offset limit out
        ≡ some (d₁, out_err out err_bad_typ expect_zset_text)
  unfolding do_zquery
  zquery_wrong d d₁ key score name offset limit out val off lim r e =
      rw (do_zquery, r.val_read, r.off_read, r.lim_read, e, ◌>>=◌) refl

  pub zquery_none :
      (d d₁ : Db ZSet) (key score name offset limit : Str) (out : List ℕ) (val off lim : ℕ)
      (found : Found)
      → AreRead score offset limit val off lim
      → expect_zset d key ≡ some (found, d₁)
      → is_wrong_type found ≡ false
      → not_positive lim ≡ true
      → do_zquery strtod d key score name offset limit out ≡ some (d₁, out_arr out 0)
  unfolding do_zquery
  zquery_none d d₁ key score name offset limit out val off lim found r e f g =
      rw (do_zquery, r.val_read, r.off_read, r.lim_read, e, ◌>>=◌, f, g) refl

  pub zquery_run :
      (d d₁ : Db ZSet) (key score name offset limit : Str) (out : List ℕ) (val off lim : ℕ)
      (found : Found) (z : ZSet) (out' : List ℕ)
      → AreRead score offset limit val off lim
      → expect_zset d key ≡ some (found, d₁)
      → is_wrong_type found ≡ false
      → not_positive lim ≡ false
      → get_zset d₁ found ≡ some z
      → query_zset z val name off lim out ≡ some out'
      → do_zquery strtod d key score name offset limit out ≡ some (d₁, out')
  unfolding do_zquery
  zquery_run d d₁ key score name offset limit out val off lim found z out' r e f g h i =
      rw (do_zquery, r.val_read, r.off_read, r.lim_read, e, ◌>>=◌, f, g, h, ◌>>=◌, i) refl
