-- ===== src/Db.antt =====
-- The database of server.cpp: entries in memory, the hash map of their nodes, their timers, and the
-- commands on strings and deadlines. An entry's address stands for its node and for the place of its
-- `heap_idx`, which is `heap.idx` at that address. `Z` is the type of sorted sets.
pub mod Commands
pub mod Lookup
pub mod Get
pub mod Store
pub mod Unique
pub mod Set
pub mod Write
pub mod SetGet
pub mod Keys
pub mod Timers
pub mod Delete
pub mod Del
pub mod Ask
pub mod Same
pub mod Dated
pub mod SetTtl
pub mod Expiring
pub mod SetTimed
pub mod Expire
pub mod Expired
pub mod Processed
pub mod ProcessKeys
use redis_lite.Base.{
  ℕ, zero, suc, ◌+◌, ◌-◌, ◌*◌, ◌%◌, ◌^◌, Bool, true, false, List, [], ◌∷◌, ◌++◌, Option, none, some,
  ◌>>=◌, ltb, leb, ◌==◌, ◌&&◌, ◌||◌, if◌then◌else◌, length, get_elem?,
}
pub use redis_lite.Base.Memory.{store}
use redis_lite.Bytes.{Str}
use redis_lite.HashTable.{HNode, HMap, hm_lookup, hm_insert, hm_delete, hm_size, hm_foreach}
use redis_lite.Heap.{HeapItem, HeapMem}
use redis_lite.Ttl.{heap_delete, heap_upsert}

abbrev pub t_str : ℕ
t_str = 1

abbrev pub t_zset : ℕ
t_zset = 2

pub record Entry (Z : Type 0) : Type 0 where
  pub key : Str
  pub type : ℕ
  pub str : Str
  pub zset : Z

-- `g_data.db`, the heap of allocated entries, `g_data.heap` with the entries' `heap_idx`, and the
-- next address that `new` gives.
pub record Db (Z : Type 0) : Type 0 where
  pub db : HMap ℕ
  pub entries : ℕ → Option (Entry Z)
  pub heap : HeapMem
  pub fresh : ℕ

-- `(size_t)-1`
abbrev pub no_timer : ℕ
no_timer = 18446744073709551615

-- The loop of `str_hash`.
unfoldable pub hash_bytes : ℕ → Str → ℕ
hash_bytes h [] = h
hash_bytes h (b ∷ s) = hash_bytes ((h + b) * 16777619 % 2 ^ 32) s

unfoldable pub str_hash : Str → ℕ
str_hash s = hash_bytes 2166136261 s

abbrev pub same_str : Str → Str → Bool
same_str [] [] = true
same_str (a ∷ s) (b ∷ t) = (a == b) && same_str s t
same_str _ _ = false

module _ {Z : Type 0} where
  -- A freed entry has no key.
  abbrev pub has_key : Str → Option (Entry Z) → Bool
  has_key key none = false
  has_key key (some ent) = same_str ent.key key

  abbrev pub entry_eq : Db Z → Str → HNode ℕ → Bool
  entry_eq d key node = has_key key (d.entries node.item)

  -- The map after `hm_lookup` of a key, with the address of its entry.
  unfoldable pub lookup_key : Db Z → Str → Option (Option ℕ × Db Z)
  lookup_key d key = hm_lookup d.db (str_hash key) (entry_eq d key) >>= λ (node, db). elim node [
    | none ↦ some (none, record d { db = db })
    | some n ↦ some (some n.item, record d { db = db })
  ]

  -- Deletion of the timer at an entry's index, which is then reset.
  unfoldable pub drop_timer : Db Z → ℕ → Option (Db Z)
  drop_timer d p = heap_delete d.heap (d.heap.idx p) >>= λ h.
      some (record d { heap = record h { idx = store h.idx p no_timer } })

  -- `zset_clear` of the entry's set.
  unfoldable pub clear_zset : (Z → Z) → Db Z → ℕ → Option (Db Z)
  clear_zset zset_clear d p = d.entries p >>= λ ent. some (
      if ent.type == t_zset
      then record d {
        entries = store d.entries p (some (record ent { zset = zset_clear ent.zset }));
      }
      else d)

  unfoldable pub entry_del : (Z → Z) → Db Z → ℕ → Option (Db Z)
  entry_del zset_clear d p = (if d.heap.idx p == no_timer then some d else drop_timer d p) >>= λ d₁.
      clear_zset zset_clear d₁ p >>= λ d₂. some (record d₂ { entries = store d₂.entries p none })

  -- A negative int64 is 2 ^ 63 at least; the clock stands at `now`.
  unfoldable pub entry_set_ttl : ℕ → Db Z → ℕ → ℕ → Option (Db Z)
  entry_set_ttl now d p ttl_ms =
      if leb (2 ^ 63) ttl_ms
      then (if d.heap.idx p == no_timer then some d else drop_timer d p)
      else (heap_upsert d.heap (d.heap.idx p) (record { val = (now + ttl_ms) % 2 ^ 64; ref = p })
          >>= λ h. some (record d { heap = h }))
