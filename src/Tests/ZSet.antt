-- ===== src/Tests/ZSet.antt =====
-- zset.cpp on a sorted set of one node.
use redis_lite.Base.{
  ℕ, zero, suc, ◌≡◌, inl, inr, refl, ◌∙◌, sym, ap, Bool, true, List, [], ◌∷◌, none, some, ◌==◌,
  arith, count,
}
use redis_lite.Base.Memory.{store, store-other, eq-cases}
use redis_lite.Bytes.{Str}
use redis_lite.HashTable.{Chain, no_tab}
use redis_lite.HashTable.Buckets.{bucket}
use redis_lite.HashTable.Valid.{is_misplaced}
use redis_lite.HashTable.Shape.{single}
use redis_lite.HashTable.Lookup.{tally}
use redis_lite.Avl.{avl_init}
use redis_lite.Db.{Entry, str_hash, hash_bytes, same_str}
use redis_lite.Db.Lookup.{IsDb}
use redis_lite.Db.Dated.{not_both}
use redis_lite.Db.Store.{to_nat-le}
use redis_lite.ZSet.{ZNode, ZSet, zset_insert, zset_delete, tuple_less, dbl_rank}
use redis_lite.ZSet.Valid.{IsZSet, named, as_db}
use redis_lite.ZSet.Stored.{Stored, zset_insert-Stored}
use redis_lite.ZSet.Remove.{Removed, zset_delete-Removed}

-- 1.0 is less than 1.5, and -1.0 than 1.0; 0 and -0 are the same.
one_less :
    tuple_less (record { score = 4607182418800017408; name = [] }) 4609434218613702656 [] ≡ true
unfolding tuple_less
one_less = refl

minus_less :
    tuple_less (record { score = 13830554455654793216; name = [] }) 4607182418800017408 [] ≡ true
unfolding tuple_less
minus_less = refl

zeros_lem : dbl_rank 0 ≡ dbl_rank 9223372036854775808
zeros_lem = refl

abbrev pub k : Str
k = 107 ∷ []

abbrev pub w : Str
w = 119 ∷ []

abbrev pub one_score : ℕ
one_score = 4607182418800017408

abbrev k_tuple : ZNode
k_tuple = record { score = one_score; name = k }

-- The hash code of `k` is even, so that its node is in the first of four buckets.
abbrev pub one_chain : List (Chain ℕ)
one_chain = (record { hcode = 1879901584; item = 0 } ∷ []) ∷ [] ∷ [] ∷ [] ∷ []

abbrev pub no_chains : List (Chain ℕ)
no_chains = []

abbrev pub one_tuple : ZSet
one_tuple = record {
  root = avl_init 0;
  hmap = record {
    newer = record { tab = some one_chain; mask = 3; size = 1 };
    older = no_tab;
    migrate_pos = 0;
  };
  nodes = store (λ p. none) 0 (some k_tuple);
  fresh = 1;
}

tuple_at : (p : ℕ) (ent : Entry ℕ) → named (one_tuple.nodes p) ≡ some ent → p ≡ 0
tuple_at p ent e = elim (eq-cases p 0) [
  | inl at ↦ at
  | inr off ↦
      absurd (not_both (sym (ap named (store-other (λ q. none) 0 p (some k_tuple) off)) ∙ e))
]

placed : (i : ℕ) → count (is_misplaced 3 i) (bucket one_chain i) ≡ 0
placed zero = refl
placed (suc zero) = refl
placed (suc (suc zero)) = refl
placed (suc (suc (suc zero))) = refl
placed (suc (suc (suc (suc i)))) = refl

pub one_tuple-IsDb : IsDb (as_db one_tuple) one_chain no_chains
unfolding str_hash hash_bytes
one_tuple-IsDb = record {
  map =
      single
        (record {
          array = refl;
          width = refl;
          wide = omega arith;
          power = refl;
          sized = refl;
          placed = placed;
        })
        refl refl;
  live = refl;
  unique = λ key. omega (arith, to_nat-le (same_str k key));
  below = λ p ent e. omega (arith, tuple_at p ent e);
  rooted = λ p ent e.
      omega (arith, ap (λ q. tally one_chain no_chains (λ n. n.item == q)) (tuple_at p ent e));
}

pub one_tuple-IsZSet : IsZSet one_tuple one_chain no_chains
one_tuple-IsZSet = record {
  map = one_tuple-IsDb;
  tree = (_, _, refl, refl, omega arith, omega arith);
  sorted = (refl, _);
  same = λ f. omega arith;
}

zset_insert-Stored_example :
    (r : Bool × ZSet) × (zset_insert one_tuple w one_score ≡ some r)
    × ((nb' : List (Chain ℕ)) × (ob' : List (Chain ℕ)) × Stored one_tuple w one_score r nb' ob')
zset_insert-Stored_example =
    zset_insert-Stored one_tuple one_chain no_chains w one_score one_tuple-IsZSet (omega arith)

zset_delete-Removed_example :
    (z' : ZSet) × (zset_delete one_tuple 0 ≡ some z')
    × ((nb' : List (Chain ℕ)) × (ob' : List (Chain ℕ)) × Removed one_tuple 0 z' nb' ob')
zset_delete-Removed_example =
    zset_delete-Removed one_tuple one_chain no_chains 0 k_tuple one_tuple-IsZSet refl (omega arith)
