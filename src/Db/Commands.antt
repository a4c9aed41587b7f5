-- ===== src/Db/Commands.antt =====
-- The commands of server.cpp on strings, keys and deadlines: `do_get` to `do_keys`. `none` is a fault.
use redis_lite.Base.{
  ℕ, ◌+◌, ◌-◌, ◌%◌, ◌^◌, Bool, true, List, [], ◌∷◌, Option, none, some, ◌>>=◌, ltb, ◌==◌,
  if◌then◌else◌, get_elem?,
}
use redis_lite.Bytes.{Str}
use redis_lite.Number.{str2int}
use redis_lite.HashTable.{HNode, hm_insert, hm_delete, hm_size, hm_foreach}
use redis_lite.Heap.{HeapMem}
use redis_lite.Reply.{out_nil, out_str, out_int, out_err, out_arr, err_bad_typ, err_bad_arg}
use redis_lite.Db.{
  Entry, Db, t_str, no_timer, str_hash, store, entry_eq, lookup_key, entry_del, entry_set_ttl,
}

-- "not a string value"
abbrev pub not_a_string : Str
not_a_string =
    110 ∷ 111 ∷ 116 ∷ 32 ∷ 97 ∷ 32 ∷ 115 ∷ 116 ∷ 114 ∷ 105 ∷ 110 ∷ 103 ∷ 32 ∷ 118 ∷ 97 ∷ 108 ∷ 117
    ∷ 101 ∷ []

-- "a non-string value exists"
abbrev pub non_string_exists : Str
non_string_exists =
    97 ∷ 32 ∷ 110 ∷ 111 ∷ 110 ∷ 45 ∷ 115 ∷ 116 ∷ 114 ∷ 105 ∷ 110 ∷ 103 ∷ 32 ∷ 118 ∷ 97 ∷ 108 ∷ 117
    ∷ 101 ∷ 32 ∷ 101 ∷ 120 ∷ 105 ∷ 115 ∷ 116 ∷ 115 ∷ []

-- "expect int64"
abbrev pub expect_int64 : Str
expect_int64 = 101 ∷ 120 ∷ 112 ∷ 101 ∷ 99 ∷ 116 ∷ 32 ∷ 105 ∷ 110 ∷ 116 ∷ 54 ∷ 52 ∷ []

module _ {Z : Type 0} where
  unfoldable pub do_get : Db Z → Str → List ℕ → Option (Db Z × List ℕ)
  do_get d key out = lookup_key d key >>= λ (node, d'). elim node [
    | none ↦ some (d', out_nil out)
    | some p ↦ d'.entries p >>= λ ent. some (
      d',
      if ent.type == t_str then out_str out ent.str else out_err out err_bad_typ not_a_string,
    )
  ]

  -- A new entry of type T_STR at the next address, without a timer.
  unfoldable pub add_str : Db Z → Z → Str → Str → Option (Db Z)
  add_str d zset key val =
      let p = d.fresh in
      let ent : Entry Z = record { key = key; type = t_str; str = val; zset = zset } in
      let h : HeapMem = record d.heap { idx = store d.heap.idx p no_timer } in
      hm_insert d.db (record { hcode = str_hash key; item = p }) >>= λ db.
      some (record { db = db; entries = store d.entries p (some ent); heap = h; fresh = p + 1 })

  -- `zset` is the sorted set that `new Entry()` holds.
  unfoldable pub do_set : Z → Db Z → Str → Str → List ℕ → Option (Db Z × List ℕ)
  do_set zset d key val out = lookup_key d key >>= λ (node, d'). elim node [
    | some p ↦ d'.entries p >>= λ ent. some (
        if ent.type == t_str
        then (
          record d' { entries = store d'.entries p (some (record ent { str = val })) },
          out_nil out,
        )
        else (d', out_err out err_bad_typ non_string_exists))
    | none ↦ add_str d' zset key val >>= λ d''. some (d'', out_nil out)
  ]

  unfoldable pub do_del : (Z → Z) → Db Z → Str → List ℕ → Option (Db Z × List ℕ)
  do_del zset_clear d key out = hm_delete d.db (str_hash key) (entry_eq d key) >>= λ (node, db).
      let d' = record d { db = db } in
      elim node [
        | some n ↦ entry_del zset_clear d' n.item >>= λ d''. some (d'', out_int out 1)
        | none ↦ some (d', out_int out 0)
      ]

  unfoldable pub do_expire : ℕ → Db Z → Str → Str → List ℕ → Option (Db Z × List ℕ)
  do_expire now d key ttl out = elim (str2int ttl) [
    | none ↦ some (d, out_err out err_bad_arg expect_int64)
    | some ttl_ms ↦ lookup_key d key >>= λ (node, d'). elim node [
      | some p ↦ entry_set_ttl now d' p ttl_ms >>= λ d''. some (d'', out_int out 1)
      | none ↦ some (d', out_int out 0)
    ]
  ]

  -- -2 for a missing key, -1 for a key without a deadline.
  unfoldable pub do_ttl : ℕ → Db Z → Str → List ℕ → Option (Db Z × List ℕ)
  do_ttl now d key out = lookup_key d key >>= λ (node, d'). elim node [
    | none ↦ some (d', out_int out (2 ^ 64 - 2))
    | some p ↦
        if d'.heap.idx p == no_timer
        then some (d', out_int out (2 ^ 64 - 1))
        else (get_elem? d'.heap.items (d'.heap.idx p) >>= λ t.
            some (d', out_int out (if ltb now t.val then t.val - now else 0)))
  ]

  -- A freed entry is a fault, which the buffer `none` stands for.
  abbrev pub cb_keys : Db Z → HNode ℕ → Option (List ℕ) → Bool × Option (List ℕ)
  cb_keys d node out =
      (true, out >>= λ buf. d.entries node.item >>= λ ent. some (out_str buf ent.key))

  unfoldable pub do_keys : Db Z → List ℕ → Option (Db Z × List ℕ)
  do_keys d out =
      hm_foreach (cb_keys d) d.db (some (out_arr out (hm_size d.db % 2 ^ 32))) >>= λ buf.
      buf >>= λ out'. some (d, out')
