-- ===== src/Db/Keys.antt =====
-- `do_keys` of server.cpp.
use redis_lite.Base.{
  ℕ, ◌%◌, ◌^◌, ◌≡◌, inl, inr, refl, ◌∙◌, sym, ap, true, List, [], ◌∷◌, ◌++◌, some, ◌>>=◌, arith,
  length, count, count-append, to_nat, Option-cases,
}
use redis_lite.Bytes.{Str}
use redis_lite.HashTable.{HNode, Chain, foreach_chain, hm_size}
use redis_lite.HashTable.Buckets.{chain_nodes}
use redis_lite.HashTable.Valid.{any_node}
use redis_lite.HashTable.Lookup.{tally}
use redis_lite.HashTable.Insert.{hm_size-tally}
use redis_lite.HashTable.Foreach.{hm_foreach-chain}
use redis_lite.Reply.{out_str, out_arr}
use redis_lite.Db.{Entry, Db, same_str, has_key, entry_eq}
use redis_lite.Db.Commands.{cb_keys, do_keys}
use redis_lite.Db.Lookup.{IsDb, is_wrong, is_stale}

-- The strings, serialized one behind the other.
abbrev pub out_strs : List ℕ → List Str → List ℕ
out_strs out [] = out
out_strs out (s ∷ strs) = out_strs (out_str out s) strs

module _ {Z : Type 0} where
  -- The keys of the nodes of a chain.
  abbrev AreKeys : Db Z → Chain ℕ → List Str → Type 0
  AreKeys d c keys =
      (length keys ≡ count any_node c)
      × ((key : Str) → count (λ k. same_str k key) keys ≡ count (entry_eq d key) c)

  step_keys :
      (d : Db Z) (n : HNode ℕ) (c : Chain ℕ) (buf : List ℕ) (ent : Entry Z)
      → d.entries n.item ≡ some ent
      → foreach_chain (cb_keys d) (n ∷ c) (some buf)
        ≡ foreach_chain (cb_keys d) c (some (out_str buf ent.key))
  unfolding foreach_chain
  step_keys d n c buf ent e = rw (e, ◌>>=◌) refl

  walk_keys :
      (d : Db Z) (c : Chain ℕ) (buf : List ℕ)
      → count (is_stale d) c ≡ 0
      → (keys : List Str) × (foreach_chain (cb_keys d) c (some buf)
          ≡ (true, some (out_strs buf keys)))
        × AreKeys d c keys
  walk_keys d [] buf live = ([], unfold foreach_chain in refl, (refl, λ key. refl))
  walk_keys d (n ∷ c) buf live = elim (Option-cases (d.entries n.item)) [
    | inl e ↦ absurd (omega (arith, live, ap (λ o. to_nat (is_wrong n.hcode o)) e))
    | inr (ent, e) ↦
        let (keys, run, (size, same)) = walk_keys d c (out_str buf ent.key) (omega (arith, live)) in
        (
          ent.key ∷ keys,
          step_keys d n c buf ent e ∙ run,
          (omega (arith, size), λ key. omega (arith, same key, ap (λ o. to_nat (has_key key o)) e)),
        )
  ]

  -- On a valid database `do_keys` does not fault and changes nothing. Its reply is the header of an
  -- array of as many strings as the map has nodes, and then these strings, among which each key
  -- stands as often as the map has entries with it.
  pub do_keys-AreKeys :
      (d : Db Z) (nb ob : List (Chain ℕ)) (out : List ℕ)
      → IsDb d nb ob
      → (keys : List Str) × (do_keys d out
          ≡ some (d, out_strs (out_arr out (length keys % 2 ^ 32)) keys))
        × (length keys ≡ tally nb ob any_node)
        × ((key : Str) → count (λ k. same_str k key) keys ≡ tally nb ob (entry_eq d key))
  unfolding do_keys
  do_keys-AreKeys d nb ob out v =
      let c = chain_nodes nb ++ chain_nodes ob in
      let (keys, run, (size, same)) =
        walk_keys d c (out_arr out (hm_size d.db % 2 ^ 32))
          (count-append (is_stale d) (chain_nodes nb) (chain_nodes ob) ∙ v.live) in
      let total : length keys ≡ tally nb ob any_node =
        size ∙ count-append any_node (chain_nodes nb) (chain_nodes ob) in
      let eq : hm_size d.db ≡ length keys = hm_size-tally v.map ∙ sym total in
      (
        keys,
        ap (λ o. o >>= λ buf. buf >>= λ out'. some (d, out'))
              (hm_foreach-chain (cb_keys d) (some (out_arr out (hm_size d.db % 2 ^ 32))) v.map
                ∙ ap (λ r. some r.1) run)
            ∙ ap (λ s. some (d, out_strs (out_arr out (s % 2 ^ 32)) keys)) eq,
        total,
        λ key. same key ∙ count-append (entry_eq d key) (chain_nodes nb) (chain_nodes ob),
      )
