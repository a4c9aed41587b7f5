-- ===== src/Tests/Dispatch.antt =====
-- The commands on sorted sets, on a database of one key that holds a set of one name.
use redis_lite.Base.{
  ℕ, ◌≡◌, ◌⊎◌, inl, inr, refl, ap, List, [], ◌∷◌, none, some, ◌==◌, arith, Returns, length,
}
use mathlib.Core.Option.{some-injective}
use mathlib.Core.Path.{subst}
use redis_lite.Base.Memory.{store, store-cases}
use redis_lite.Bytes.{Str}
use redis_lite.HashTable.Lookup.{tally}
use redis_lite.Avl.Inorder.{size}
use redis_lite.Db.{t_zset, Entry, Db, no_timer, str_hash, hash_bytes, same_str}
use redis_lite.Db.Lookup.{IsDb}
use redis_lite.Db.Store.{to_nat-le}
use redis_lite.ZSet.{ZSet}
use redis_lite.ZSet.Valid.{IsZSet}
use redis_lite.Reply.{out_nil, out_int}
use redis_lite.Dispatch.Sets.{do_zscore, do_zrem, do_zquery}
use redis_lite.Dispatch.Score.{IsRefused, IsAbsent, IsScore, do_zscore-Scored}
use redis_lite.Dispatch.Drop.{IsDropped, do_zrem-Dropped}
use redis_lite.Dispatch.Safe.{IsSafe, IsRoomy, KeepsSafe}
use redis_lite.Dispatch.Request.{do_request}
use redis_lite.Dispatch.Range.{IsQueried, do_zquery-Queried}
use redis_lite.Dispatch.Total.{do_request-KeepsSafe}
use redis_lite.Tests.ZSet.{k, w, one_chain, no_chains, one_tuple, one_tuple-IsDb, one_tuple-IsZSet}

-- A reader of numbers that takes every word whole, as 1.
abbrev pub reader : Str → ℕ × ℕ
reader s = (4607182418800017408, length s)

abbrev set_entry : Entry ZSet
set_entry = record { key = k; type = t_zset; str = []; zset = one_tuple }

abbrev pub one_set : Db ZSet
one_set = record {
  db = one_tuple.hmap;
  entries = store (λ p. none) 0 (some set_entry);
  heap = record { items = []; idx = λ p. no_timer };
  fresh = 1;
}

entry_at : (p : ℕ) (ent : Entry ZSet) → one_set.entries p ≡ some ent → (p ≡ 0) × (set_entry ≡ ent)
entry_at p ent e = elim (store-cases (λ q. none) 0 p (some set_entry) (some ent) e) [
  | inl (at, same) ↦ (at, some-injective set_entry ent same)
  | inr (off, gone) ↦ cc
]

one_set-IsDb : IsDb one_set one_chain no_chains
unfolding str_hash hash_bytes
one_set-IsDb = record {
  map = one_tuple-IsDb.map;
  live = refl;
  unique = λ key. omega (arith, to_nat-le (same_str k key));
  below = λ p ent e. omega (arith, (entry_at p ent e).0);
  rooted = λ p ent e.
      omega (arith, ap (λ q. tally one_chain no_chains (λ n. n.item == q)) (entry_at p ent e).0);
}

one_set-IsSafe : IsSafe one_set
one_set-IsSafe = record {
  nb = one_chain;
  ob = no_chains;
  db = one_set-IsDb;
  timed = record {
    heap = record { heap = λ c p q. absurd (omega arith); linked = λ i p. omega arith };
    short = omega arith;
    owned = λ p ent e set. cc;
    free = λ p ent e unset. refl;
    held = λ p e. refl;
  };
  sets = λ p ent e. (
    one_chain,
    no_chains,
    subst (λ (x : Entry ZSet). IsZSet x.zset one_chain no_chains) (entry_at p ent e).1
        one_tuple-IsZSet,
  );
}

one_set-IsRoomy : IsRoomy one_set
one_set-IsRoomy = record {
  timers = omega arith;
  sets = λ p ent e. omega (arith, ap (λ (x : Entry ZSet). size x.zset.root) (entry_at p ent e).1);
}

do_zscore-Scored_example :
    Returns
      (λ (r : Db ZSet × List ℕ).
        IsSafe r.0
        × (IsRefused one_set k [] r
            ⊎ (IsAbsent one_set one_set-IsSafe k (out_nil []) r ⊎ IsScore one_set k k [] r)))
      (do_zscore one_set k k [])
do_zscore-Scored_example = do_zscore-Scored one_set k k [] one_set-IsSafe

do_zrem-Dropped_example :
    Returns
      (λ (r : Db ZSet × List ℕ).
        IsSafe r.0
        × (IsRefused one_set k [] r
            ⊎ (IsAbsent one_set one_set-IsSafe k (out_int [] 0) r ⊎ IsDropped one_set k k [] r)))
      (do_zrem one_set k k [])
do_zrem-Dropped_example = do_zrem-Dropped one_set k k [] one_set-IsSafe one_set-IsRoomy

-- "1"
abbrev one_digit : Str
one_digit = 49 ∷ []

do_zquery-Queried_example :
    Returns
      (λ (r : Db ZSet × List ℕ).
        IsSafe r.0 × IsQueried reader one_set one_set-IsSafe k one_digit k one_digit one_digit [] r)
      (do_zquery reader one_set k one_digit k one_digit one_digit [])
do_zquery-Queried_example =
    do_zquery-Queried reader one_set k one_digit k one_digit one_digit [] one_set-IsSafe
      one_set-IsRoomy

-- `zadd k 1 w`
abbrev zadd_w : List Str
zadd_w = (122 ∷ 97 ∷ 100 ∷ 100 ∷ []) ∷ k ∷ one_digit ∷ w ∷ []

do_request-KeepsSafe_example : Returns KeepsSafe (do_request reader 120 one_set zadd_w [])
do_request-KeepsSafe_example =
    do_request-KeepsSafe reader 120 one_set one_set-IsSafe one_set-IsRoomy zadd_w []
