-- ===== src/Db/Expire.antt =====
-- The second half of `process_timers` of server.cpp: the entries whose timers have ended.
use redis_lite.Base.{
  ℕ, zero, suc, ◌+◌, Bool, true, false, List, [], ◌∷◌, Option, none, some, ◌>>=◌, ltb, leb, ◌==◌,
  if◌then◌else◌,
}
use redis_lite.HashTable.{HNode, hm_delete}
use redis_lite.Heap.{HeapItem}
use redis_lite.Db.{Db, no_timer, str_hash, store, entry_del}

abbrev pub k_max_works : ℕ
k_max_works = 2000

-- Nodes are compared by their addresses.
abbrev pub hnode_same : ℕ → HNode ℕ → Bool
hnode_same p node = node.item == p

module _ {Z : Type 0} where
  -- `nworks++ >= k_max_works` ends the loop.
  abbrev pub after_key : (ℕ → Db Z → Option (Db Z)) → ℕ → Bool × Db Z → Option (Db Z)
  after_key loop nworks (true, d) = if leb k_max_works nworks then some d else loop (nworks + 1) d
  after_key loop nworks (false, d) = loop nworks d

module _ {Z : Type 0} (zset_clear : Z → Z) where
  -- What follows `hm_delete`: a counted deletion, or the fallback for an entry whose node is missing.
  unfoldable pub free_expired : Db Z → ℕ → Option (HNode ℕ) → Option (Bool × Db Z)
  free_expired d p none =
      entry_del zset_clear (record d { heap = record d.heap { idx = store d.heap.idx p no_timer } })
        p
      >>= λ d'. some (false, d')
  free_expired d p (some node) = entry_del zset_clear d p >>= λ d'. some (true, d')

  -- One turn at the entry at `p`; its node has the hash code of its key. A freed entry is a fault.
  unfoldable pub expire_key : Db Z → ℕ → Option (Bool × Db Z)
  expire_key d p = d.entries p >>= λ ent.
      hm_delete d.db (str_hash ent.key) (hnode_same p) >>= λ (node, db).
      free_expired (record d { db = db }) p node

  unfoldable pub expire_turn :
      (ℕ → Db Z → Option (Db Z)) → ℕ → ℕ → Db Z → List HeapItem → Option (Db Z)
  expire_turn loop now nworks d [] = some d
  expire_turn loop now nworks d (t ∷ _) =
      if ltb t.val now then (expire_key d t.ref >>= λ r. after_key loop nworks r) else some d

  -- The loop, on fuel for its turns.
  unfoldable pub expire_keys : ℕ → ℕ → ℕ → Db Z → Option (Db Z)
  expire_keys zero now nworks d = none
  expire_keys (suc fuel) now nworks d = expire_turn (expire_keys fuel now) now nworks d d.heap.items

  unfoldable pub process_keys : ℕ → Db Z → Option (Db Z)
  process_keys now d = expire_keys (suc k_max_works) now 0 d
