-- ===== src/Tests/Db.antt =====
-- The commands of server.cpp on a database of one key, whose sorted sets are not looked at.
use redis_lite.Base.{
  ◌==◌, ◌+◌, ℕ, zero, suc, ◌%◌, ◌^◌, ◌<◌, ◌≡◌, sym, ap, inl, inr, List, [], ◌∷◌, none, some, ◌>>=◌,
  arith, Returns, count, length, to_nat, refl,
}
use mathlib.Core.Option.{some-injective}
use redis_lite.Bytes.{Str}
use redis_lite.HashTable.{HNode, Chain, no_tab}
use redis_lite.HashTable.Buckets.{bucket}
use redis_lite.HashTable.Valid.{any_node, is_misplaced}
use redis_lite.HashTable.Shape.{single}
use redis_lite.HashTable.Lookup.{tally}
use redis_lite.Reply.{out_str, out_arr}
use redis_lite.Number.{strtoll, str2int, digits, sign, skip_spaces}
use redis_lite.Db.{Entry, Db, t_str, no_timer, store, str_hash, hash_bytes, same_str, entry_eq}
use redis_lite.Heap.Links.{is_owner}
use redis_lite.Db.Timers.{IsTimed}
use redis_lite.Db.Expiring.{Expiring, do_expire-Expiring}
use redis_lite.Db.Expire.{process_keys}
use redis_lite.Db.Processed.{Processed}
use redis_lite.Db.ProcessKeys.{process_keys-Processed}
use redis_lite.Db.Ask.{Asked, do_ttl-Asked}
use redis_lite.Db.Del.{Gone, do_del-Gone}
use redis_lite.Db.Commands.{do_get, do_set, do_del, do_expire, do_ttl, do_keys}
use redis_lite.Db.Lookup.{IsDb, IsEntry}
use redis_lite.Db.Store.{store-cases, to_nat-le, ==-false}
use redis_lite.Db.Get.{Got, do_get-Got}
use redis_lite.Db.Write.{Wrote, do_set-Wrote}
use redis_lite.Db.SetGet.{do_set-do_get}
use redis_lite.Db.Keys.{out_strs, do_keys-AreKeys}

-- " -12" and "12x"
str2int-negative : str2int (32 ∷ 45 ∷ 49 ∷ 50 ∷ []) ≡ some 18446744073709551604
unfolding str2int strtoll digits sign skip_spaces
str2int-negative = refl

str2int-garbage : str2int (49 ∷ 50 ∷ 120 ∷ []) ≡ none
unfolding str2int strtoll digits sign skip_spaces
str2int-garbage = refl

-- The empty string is read as 0.
str2int-empty : str2int [] ≡ some 0
unfolding str2int strtoll digits sign skip_spaces
str2int-empty = refl

abbrev no_chains : List (Chain ℕ)
no_chains = []

abbrev k : Str
k = 107 ∷ []

abbrev v : Str
v = 118 ∷ []

-- The hash code of `k` is even, so that its entry is in the first of four buckets.
abbrev k_node : HNode ℕ
k_node = record { hcode = 1879901584; item = 0 }

abbrev one_chain : List (Chain ℕ)
one_chain = (k_node ∷ []) ∷ [] ∷ [] ∷ [] ∷ []

abbrev k_entry : Entry ℕ
k_entry = record { key = k; type = t_str; str = v; zset = 0 }

abbrev one_key : Db ℕ
one_key = record {
  db = record {
    newer = record { tab = some one_chain; mask = 3; size = 1 };
    older = no_tab;
    migrate_pos = 0;
  };
  entries = store (λ p. none) 0 (some k_entry);
  heap = record { items = []; idx = λ p. no_timer };
  fresh = 1;
}

one_chain_placed : (i : ℕ) → count (is_misplaced 3 i) (bucket one_chain i) ≡ 0
one_chain_placed zero = refl
one_chain_placed (suc zero) = refl
one_chain_placed (suc (suc zero)) = refl
one_chain_placed (suc (suc (suc zero))) = refl
one_chain_placed (suc (suc (suc (suc i)))) = refl

one_key_below : (p : ℕ) (ent : Entry ℕ) → one_key.entries p ≡ some ent → p < 1
one_key_below p ent e = elim (store-cases (λ q. none) 0 p (some k_entry) (some ent) e) [
  | inl (at, same) ↦ omega (arith, at)
  | inr (off, gone) ↦ cc
]

one_key_rooted :
    (p : ℕ) (ent : Entry ℕ)
    → one_key.entries p ≡ some ent
    → 0 < tally one_chain no_chains (λ n. n.item == p)
one_key_rooted p ent e = elim (store-cases (λ q. none) 0 p (some k_entry) (some ent) e) [
  | inl (at, same) ↦ omega (arith, ap (λ q. tally one_chain no_chains (λ n. n.item == q)) at)
  | inr (off, gone) ↦ cc
]

one_key-IsDb : IsDb one_key one_chain no_chains
unfolding str_hash hash_bytes
one_key-IsDb = record {
  map =
      single
        (record {
          array = refl;
          width = refl;
          wide = omega arith;
          power = refl;
          sized = refl;
          placed = one_chain_placed;
        })
        refl refl;
  live = refl;
  unique = λ key. omega (arith, to_nat-le (same_str k key));
  below = one_key_below;
  rooted = one_key_rooted;
}

only_strings :
    (p : ℕ) (ent : Entry ℕ)
    → IsEntry one_key one_chain no_chains p ent
    → ent.key ≡ k
    → ent.type ≡ t_str
only_strings p ent (e, here) same = elim (store-cases (λ q. none) 0 p (some k_entry) (some ent) e) [
  | inl (at, f) ↦ ap (λ x. x.type) (sym (some-injective k_entry ent f))
  | inr (off, gone) ↦ cc
]

abbrev w : Str
w = 119 ∷ []

do_get-Got_example :
    (r : Db ℕ × List ℕ) × (do_get one_key k [] ≡ some r)
    × ((nb' : List (Chain ℕ)) × (ob' : List (Chain ℕ)) × Got one_key one_chain no_chains k [] r nb'
          ob')
do_get-Got_example = do_get-Got one_key one_chain no_chains k [] one_key-IsDb

do_set-Wrote_example :
    (r : Db ℕ × List ℕ) × (do_set 0 one_key k w [] ≡ some r)
    × ((nb' : List (Chain ℕ)) × (ob' : List (Chain ℕ)) × Wrote one_key one_chain no_chains k w [] r
          nb' ob')
do_set-Wrote_example = do_set-Wrote 0 one_key one_chain no_chains k w [] one_key-IsDb

do_set-do_get_example :
    Returns
      (λ (r : Db ℕ × List ℕ). r.1 ≡ out_str [] w)
      (do_set 0 one_key k w [] >>= λ r. do_get r.0 k [])
do_set-do_get_example =
    do_set-do_get 0 one_key one_chain no_chains k w [] [] one_key-IsDb only_strings

do_keys-AreKeys_example :
    (keys : List Str) × (do_keys one_key []
      ≡ some (one_key, out_strs (out_arr [] (length keys % 2 ^ 32)) keys))
    × (length keys ≡ tally one_chain no_chains any_node)
    × ((key : Str)
        → count (λ l. same_str l key) keys ≡ tally one_chain no_chains (entry_eq one_key key))
do_keys-AreKeys_example = do_keys-AreKeys one_key one_chain no_chains [] one_key-IsDb

-- The key has a deadline.
abbrev one_deadline : Db ℕ
one_deadline = record one_key {
  heap = record { items = record { val = 500; ref = 0 } ∷ []; idx = λ p. 0 };
}

one_deadline-IsDb : IsDb one_deadline one_chain no_chains
one_deadline-IsDb = record {
  map = one_key-IsDb.map;
  live = one_key-IsDb.live;
  unique = one_key-IsDb.unique;
  below = one_key-IsDb.below;
  rooted = one_key-IsDb.rooted;
}

one_owned : (p : ℕ) (ent : Entry ℕ) → one_deadline.entries p ≡ some ent → (0 < 1) × (0 ≡ p)
one_owned p ent e = elim (store-cases (λ q. none) 0 p (some k_entry) (some ent) e) [
  | inl (at, same) ↦ (omega arith, sym at)
  | inr (off, gone) ↦ cc
]

one_held : (p : ℕ) → one_deadline.entries p ≡ none → count (is_owner p) one_deadline.heap.items ≡ 0
one_held p e = elim (store-cases (λ q. none) 0 p (some k_entry) none e) [
  | inl (at, same) ↦ cc
  | inr (off, gone) ↦ ap (λ b. to_nat b + 0) (==-false 0 p (λ at. off (sym at)))
]

one_deadline-IsTimed : IsTimed one_deadline
one_deadline-IsTimed = record {
  heap = record { heap = λ c p q. absurd (omega arith); linked = λ i p. omega arith };
  short = omega arith;
  owned = λ p ent e set. one_owned p ent e;
  free = λ p ent e unset. cc;
  held = one_held;
}

do_del-Gone_example :
    (r : Db ℕ × List ℕ) × (do_del (λ z. z) one_deadline k [] ≡ some r)
    × ((nb' : List (Chain ℕ)) × (ob' : List (Chain ℕ)) × Gone one_deadline one_chain no_chains k []
          r nb' ob')
do_del-Gone_example =
    do_del-Gone (λ z. z) one_deadline one_chain no_chains k [] one_deadline-IsDb
      one_deadline-IsTimed

do_ttl-Asked_example :
    (r : Db ℕ × List ℕ) × (do_ttl 120 one_deadline k [] ≡ some r)
    × ((nb' : List (Chain ℕ)) × (ob' : List (Chain ℕ)) × Asked 120 one_deadline one_chain no_chains
          k [] r nb' ob')
do_ttl-Asked_example =
    do_ttl-Asked 120 one_deadline one_chain no_chains k [] one_deadline-IsDb one_deadline-IsTimed

-- "100"
abbrev hundred : Str
hundred = 49 ∷ 48 ∷ 48 ∷ []

do_expire-Expiring_example :
    (r : Db ℕ × List ℕ) × (do_expire 7 one_deadline k hundred [] ≡ some r)
    × ((nb' : List (Chain ℕ)) × (ob' : List (Chain ℕ)) × Expiring 7 one_deadline one_chain no_chains
          k hundred [] r nb' ob')
do_expire-Expiring_example =
    do_expire-Expiring 7 one_deadline one_chain no_chains k hundred [] one_deadline-IsDb
      one_deadline-IsTimed (omega arith)

process_keys-Processed_example :
    (d' : Db ℕ) × (process_keys (λ z. z) 600 one_deadline ≡ some d')
    × ((nb' : List (Chain ℕ)) × (ob' : List (Chain ℕ)) × Processed 600 2001 one_deadline one_chain
          no_chains d' nb' ob')
process_keys-Processed_example =
    process_keys-Processed (λ z. z) 600 one_deadline one_chain no_chains one_deadline-IsDb
      one_deadline-IsTimed
