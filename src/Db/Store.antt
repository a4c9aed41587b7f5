-- ===== src/Db/Store.antt =====
-- server.cpp: what writing one entry does to the keys of the database.
use redis_lite.Base.{
  ℕ, ◌+◌, ◌≤◌, ◌≡◌, inl, inr, refl, ◌∙◌, sym, ap, Bool, true, false, List, [], ◌∷◌, Option, none,
  some, ◌==◌, if◌then◌else◌, arith, count, to_nat, Bool-cases,
}
pub use redis_lite.Base.Memory.{
  ==-true, ==-false, ==-same, eq-cases, store-same, store-other, store-cases, store-again,
}
use redis_lite.Bytes.{Str}
use redis_lite.Db.{Entry, store, has_key}
use redis_lite.Db.Lookup.{is_wrong}

pub to_nat-le : (b : Bool) → to_nat b ≤ 1
to_nat-le true = omega arith
to_nat-le false = omega arith

module _ {ℓ} {A : Type ℓ} where
  pub count-le_sum :
      (p q r : A → Bool) (c : List A)
      → ((x : A) → to_nat (p x) ≤ to_nat (q x) + to_nat (r x))
      → count p c ≤ count q c + count r c
  count-le_sum p q r [] h = omega arith
  count-le_sum p q r (x ∷ c) h = omega (arith, h x, count-le_sum p q r c h)

  pub count-sum_le :
      (p q r : A → Bool) (c : List A)
      → ((x : A) → to_nat (p x) + to_nat (q x) ≤ to_nat (r x))
      → count p c + count q c ≤ count r c
  count-sum_le p q r [] h = omega arith
  count-sum_le p q r (x ∷ c) h = omega (arith, h x, count-sum_le p q r c h)

  pub count-same : (p q : A → Bool) (c : List A) → ((x : A) → p x ≡ q x) → count p c ≡ count q c
  count-same p q [] h = refl
  count-same p q (x ∷ c) h = omega (arith, ap to_nat (h x), count-same p q c h)

module _ {Z : Type 0} (E : ℕ → Option (Entry Z)) (p : ℕ) where
  -- A test that does not see the change of an entry.
  pub update_unseen :
      (f : Option (Entry Z) → Bool) (ent ent' : Entry Z) (q : ℕ)
      → E p ≡ some ent
      → f (some ent') ≡ f (some ent)
      → f (store E p (some ent') q) ≡ f (E q)
  update_unseen f ent ent' q e same = elim (Bool-cases (q == p)) [
    | inl at ↦
        ap (λ b. f (if b then some ent' else E q)) at
        ∙ same
        ∙ ap f (sym (ap E (==-true q p at) ∙ e))
    | inr off ↦ ap (λ b. f (if b then some ent' else E q)) off
  ]

  -- A new entry at a free address.
  pub add_wrong :
      (new : Entry Z) (hcode q : ℕ)
      → E p ≡ none
      → to_nat (is_wrong hcode (store E p (some new) q)) ≤ to_nat (is_wrong hcode (E q))
  add_wrong new hcode q e = elim (Bool-cases (q == p)) [
    | inl at ↦ rw (ap E (==-true q p at) ∙ e) (to_nat-le _)
    | inr off ↦ rw off (omega arith)
  ]

  pub add_key :
      (new : Entry Z) (key : Str) (hcode q : ℕ)
      → E p ≡ none
      → to_nat (has_key key (store E p (some new) q))
        ≤ to_nat (has_key key (E q)) + to_nat (is_wrong hcode (E q))
  add_key new key hcode q e = elim (Bool-cases (q == p)) [
    | inl at ↦ rw (ap E (==-true q p at) ∙ e) (to_nat-le _)
    | inr off ↦ rw off (omega arith)
  ]

module _ {Z : Type 0} where
  entry_key : Option (Entry Z) → Str → Str
  entry_key none s = s
  entry_key (some ent) s = ent.key

  pub some-key : (x y : Entry Z) → some x ≡ some y → x.key ≡ y.key
  unfolding entry_key
  some-key x y e = ap (λ o. entry_key o []) e
