-- ===== src/Dispatch/Sets.antt =====
-- server.cpp: the commands on sorted sets. The value that `strtod` reads and the count of characters it
-- takes are those of a function `strtod`; a double is its 64-bit pattern. `none` is a fault.
use redis_lite.Base.{
  ℕ, zero, suc, ◌+◌, ◌%◌, ◌^◌, Bool, true, false, List, [], Option, none, some, ◌>>=◌, ltb, leb,
  ◌==◌, ◌&&◌, if◌then◌else◌, length,
}
use mathlib.Core.Bool.{not}
use redis_lite.Bytes.{Str}
use redis_lite.Number.{str2int}
use redis_lite.HashTable.{hm_insert, no_map}
use redis_lite.Heap.{HeapMem}
use redis_lite.Reply.{
  out_nil, out_str, out_int, out_dbl, out_err, out_arr, out_begin_arr, out_end_arr, err_bad_typ,
  err_bad_arg,
}
use redis_lite.Avl.{Tree, leaf, node, top}
use redis_lite.Avl.Inorder.{size}
use redis_lite.Avl.Offset.{avl_offset, int_rank}
use redis_lite.Db.{t_zset, Entry, Db, no_timer, str_hash, store, lookup_key}
use redis_lite.ZSet.{ZSet, node_at, zset_lookup, zset_insert, zset_delete, zset_seekge}
use redis_lite.Dispatch.Words.{expect_float, expect_zset_text, expect_fp_number, expect_int}

-- An exponent of ones and a mantissa that is not 0.
abbrev pub is_nan : ℕ → Bool
is_nan b = ltb 9218868437227405312 (b % 2 ^ 63)

abbrev pub empty_zset : ZSet
empty_zset = record { root = leaf; hmap = no_map; nodes = λ p. none; fresh = 0 }

-- What `expect_zset` finds: `k_empty_zset`, NULL, or the set of the entry at an address.
pub data Found : Type 0 where
  no_key : Found
  wrong_type : Found
  zset_of : ℕ → Found

abbrev pub tree_item : Tree ℕ → Option ℕ
tree_item leaf = none
tree_item (node l x h c r) = some x

-- The pointer to a node behind or before another.
unfoldable pub znode_offset : ZSet → Option ℕ → ℕ → Option (Option ℕ)
znode_offset z none offset = some none
znode_offset z (some p) offset = node_at p z.root top >>= λ (t, up).
    avl_offset t up offset >>= λ o. some (o >>= λ (t', up'). tree_item t')

-- The set of an entry is read, or written after a lookup; nothing is written to `k_empty_zset`.
abbrev pub get_zset : Db ZSet → Found → Option ZSet
get_zset d no_key = some empty_zset
get_zset d wrong_type = none
get_zset d (zset_of p) = d.entries p >>= λ ent. some ent.zset

abbrev pub put_zset : Db ZSet → Found → ZSet → Option (Db ZSet)
put_zset d (zset_of p) z = d.entries p >>= λ ent.
    some (record d { entries = store d.entries p (some (record ent { zset = z })) })
put_zset d _ z = some d

unfoldable pub expect_zset : Db ZSet → Str → Option (Found × Db ZSet)
expect_zset d key = lookup_key d key >>= λ (o, d'). elim o [
  | none ↦ some (no_key, d')
  | some p ↦ d'.entries p >>= λ ent. some (if ent.type == t_zset then zset_of p else wrong_type, d')
]

-- `zset_lookup` in the set, whose map it may change, and what follows with the set and the node.
unfoldable pub lookup_in :
    Db ZSet
    → Found
    → Str
    → (Db ZSet → ZSet → Option ℕ → Option (Db ZSet × List ℕ))
    → Option (Db ZSet × List ℕ)
lookup_in d found name next = get_zset d found >>= λ z.
    zset_lookup z name >>= λ (o, z'). put_zset d found z' >>= λ d'. next d' z' o

abbrev pub is_wrong_type : Found → Bool
is_wrong_type wrong_type = true
is_wrong_type _ = false

abbrev pub delete_node : Found → List ℕ → Db ZSet → ZSet → Option ℕ → Option (Db ZSet × List ℕ)
delete_node found out d z none = some (d, out_int out 0)
delete_node found out d z (some p) =
    zset_delete z p >>= λ z'. put_zset d found z' >>= λ d'. some (d', out_int out 1)

unfoldable pub do_zrem : Db ZSet → Str → Str → List ℕ → Option (Db ZSet × List ℕ)
do_zrem d key name out = expect_zset d key >>= λ (found, d').
    if is_wrong_type found
    then some (d', out_err out err_bad_typ expect_zset_text)
    else lookup_in d' found name (delete_node found out)

abbrev pub answer_score : List ℕ → Db ZSet → ZSet → Option ℕ → Option (Db ZSet × List ℕ)
answer_score out d z none = some (d, out_nil out)
answer_score out d z (some p) = z.nodes p >>= λ n. some (d, out_dbl out n.score)

unfoldable pub do_zscore : Db ZSet → Str → Str → List ℕ → Option (Db ZSet × List ℕ)
do_zscore d key name out = expect_zset d key >>= λ (found, d').
    if is_wrong_type found
    then some (d', out_err out err_bad_typ expect_zset_text)
    else lookup_in d' found name (answer_score out)

-- The output loop of `do_zquery`, with the count of elements.
unfoldable pub query_loop : ℕ → ZSet → ℕ → Option ℕ → ℕ → List ℕ → Option (ℕ × List ℕ)
query_loop zero z limit o n out = none
query_loop (suc fuel) z limit none n out = some (n, out)
query_loop (suc fuel) z limit (some p) n out =
    if ltb n limit
    then (z.nodes p >>= λ x. znode_offset z (some p) 1 >>= λ o.
        query_loop fuel z limit o (n + 2) (out_dbl (out_str out x.name) x.score))
    else some (n, out)

-- From the first tuple that is not less, moved by the offset. The set has a turn for each node.
unfoldable pub query_zset : ZSet → ℕ → Str → ℕ → ℕ → List ℕ → Option (List ℕ)
query_zset z score name offset limit out = znode_offset z (zset_seekge z score name) offset >>= λ o.
    let (out', ctx) = out_begin_arr out in
    query_loop (suc (suc (size z.root))) z limit o 0 out' >>= λ (n, out'').
    out_end_arr out'' ctx (n % 2 ^ 32)

-- 0, or negative.
abbrev pub not_positive : ℕ → Bool
not_positive limit = leb (int_rank limit) (2 ^ 63)

module _ (strtod : Str → ℕ × ℕ) where
  unfoldable pub str2dbl : Str → Option ℕ
  str2dbl s =
      let (val, taken) = strtod s in
      if (taken == length s) && not (is_nan val) then some val else none

  -- A new entry of type T_ZSET at the next address, with an empty set and without a timer.
  unfoldable pub add_zset : Db ZSet → Str → Option (Db ZSet)
  add_zset d key =
      let p = d.fresh in
      let ent : Entry ZSet = record { key = key; type = t_zset; str = []; zset = empty_zset } in
      let h : HeapMem = record d.heap { idx = store d.heap.idx p no_timer } in
      hm_insert d.db (record { hcode = str_hash key; item = p }) >>= λ db.
      some (record { db = db; entries = store d.entries p (some ent); heap = h; fresh = p + 1 })

  -- The tuple goes into the set of the entry at `p`.
  unfoldable pub zadd_at : Db ZSet → ℕ → Str → ℕ → List ℕ → Option (Db ZSet × List ℕ)
  zadd_at d p name score out = d.entries p >>= λ ent.
      zset_insert ent.zset name score >>= λ (added, z). some (
        record d { entries = store d.entries p (some (record ent { zset = z })) },
        out_int out (if added then 1 else 0),
      )

  unfoldable pub do_zadd : Db ZSet → Str → Str → Str → List ℕ → Option (Db ZSet × List ℕ)
  do_zadd d key score name out = elim (str2dbl score) [
    | none ↦ some (d, out_err out err_bad_arg expect_float)
    | some val ↦ lookup_key d key >>= λ (found, d'). elim found [
      | none ↦ add_zset d' key >>= λ d''. zadd_at d'' d'.fresh name val out
      | some p ↦ d'.entries p >>= λ ent.
          if ent.type == t_zset
          then zadd_at d' p name val out
          else some (d', out_err out err_bad_typ expect_zset_text)
    ]
  ]

  unfoldable pub do_zquery :
      Db ZSet → Str → Str → Str → Str → Str → List ℕ → Option (Db ZSet × List ℕ)
  do_zquery d key score name offset limit out = elim (str2dbl score) [
    | none ↦ some (d, out_err out err_bad_arg expect_fp_number)
    | some val ↦ elim (str2int offset) [
      | none ↦ some (d, out_err out err_bad_arg expect_int)
      | some off ↦ elim (str2int limit) [
        | none ↦ some (d, out_err out err_bad_arg expect_int)
        | some lim ↦ expect_zset d key >>= λ (found, d').
            if is_wrong_type found
            then some (d', out_err out err_bad_typ expect_zset_text)
            else (if not_positive lim
                then some (d', out_arr out 0)
                else (get_zset d' found >>= λ z.
                    query_zset z val name off lim out >>= λ out'. some (d', out')))
      ]
    ]
  ]
