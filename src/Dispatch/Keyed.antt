-- ===== src/Dispatch/Keyed.antt =====
-- server.cpp: the invariant of the database sees the keys of entries only.
use redis_lite.Base.{ℕ, ◌≡◌, refl, ◌∙◌, sym, ap, Bool, List, Option, none, some, arith}
use mathlib.Core.Path.{fun_ext}
use redis_lite.Bytes.{Str}
use redis_lite.HashTable.{HNode, Chain}
use redis_lite.HashTable.Lookup.{tally}
use redis_lite.Db.{Entry, Db, has_key}
use redis_lite.Db.Lookup.{IsDb, is_wrong}
use redis_lite.Db.Dated.{not_both}

module _ {Z : Type 0} where
  abbrev pub key_of : Option (Entry Z) → Option Str
  key_of none = none
  key_of (some ent) = some ent.key

  same_key :
      (key : Str) (o o' : Option (Entry Z)) → key_of o' ≡ key_of o → has_key key o' ≡ has_key key o
  same_key key none none e = refl
  same_key key none (some b) e = absurd (not_both (sym e))
  same_key key (some a) none e = absurd (not_both e)
  same_key key (some a) (some b) e = ap (key_test key) e
    where
      key_test : Str → Option Str → Bool
      key_test key none = Bool.false
      key_test key (some s) = has_key key (some (record b { key = s }))

  same_wrong :
      (hcode : ℕ) (o o' : Option (Entry Z))
      → key_of o' ≡ key_of o
      → is_wrong hcode o' ≡ is_wrong hcode o
  same_wrong hcode none none e = refl
  same_wrong hcode none (some b) e = absurd (not_both (sym e))
  same_wrong hcode (some a) none e = absurd (not_both e)
  same_wrong hcode (some a) (some b) e = ap (wrong_test hcode) e
    where
      wrong_test : ℕ → Option Str → Bool
      wrong_test hcode none = Bool.true
      wrong_test hcode (some s) = is_wrong hcode (some (record b { key = s }))

  was_there :
      (o o' : Option (Entry Z)) (ent : Entry Z)
      → key_of o' ≡ key_of o
      → o' ≡ some ent
      → (x : Entry Z) × (o ≡ some x)
  was_there none o' ent e f = absurd (not_both (sym e ∙ ap key_of f))
  was_there (some x) o' ent e f = (x, refl)

  -- Entries change in all but their keys.
  pub IsDb-keyed :
      (d : Db Z) (E : ℕ → Option (Entry Z)) (nb ob : List (Chain ℕ))
      → ((q : ℕ) → key_of (E q) ≡ key_of (d.entries q))
      → IsDb d nb ob
      → IsDb (record d { entries = E }) nb ob
  IsDb-keyed d E nb ob same v = record {
    map = v.map;
    live =
        ap (λ f. tally nb ob f)
          (fun_ext
            (λ (n : HNode ℕ). same_wrong n.hcode (d.entries n.item) (E n.item) (same n.item)))
        ∙ v.live;
    unique = λ k. omega (
      arith,
      ap (λ f. tally nb ob f)
          (fun_ext (λ (n : HNode ℕ). same_key k (d.entries n.item) (E n.item) (same n.item))),
      v.unique k,
    );
    below = λ p ent e. let (x, f) = was_there (d.entries p) (E p) ent (same p) e in v.below p x f;
    rooted = λ p ent e. let (x, f) = was_there (d.entries p) (E p) ent (same p) e in v.rooted p x f;
  }
