-- ===== src/Db/Delete.antt =====
-- server.cpp: what freeing an entry whose node has left the map does to the keys of the database.
use redis_lite.Base.{
  ℕ, ◌+◌, ◌≤◌, ◌<◌, ◌≡◌, ◌≢◌, inl, inr, refl, ◌∙◌, sym, ap, Bool, false, List, [], ◌∷◌, Option,
  none, some, ◌==◌, arith, count, to_nat, Bool-cases,
}
use redis_lite.Bytes.{Str}
use redis_lite.HashTable.{HNode, Chain}
use redis_lite.HashTable.Buckets.{chain_nodes}
use redis_lite.HashTable.Lookup.{tally}
use redis_lite.Db.{Entry, Db, store, has_key, entry_eq}
use redis_lite.Db.Lookup.{IsDb, IsEntry, is_wrong, is_stale}
use redis_lite.Db.Store.{==-false, ==-same, store-other, store-cases, count-le_sum, some-key}
use redis_lite.Db.Unique.{one_node}

count-false : (c : Chain ℕ) → count (λ n. false) c ≡ 0
count-false [] = refl
count-false (n ∷ c) = omega (arith, count-false c)

module _ {Z : Type 0} where
  drop_wrong :
      (E : ℕ → Option (Entry Z)) (p q hcode : ℕ)
      → to_nat (is_wrong hcode (store E p none q)) ≤ to_nat (is_wrong hcode (E q)) + to_nat (q == p)
  drop_wrong E p q hcode = elim (Bool-cases (q == p)) [
    | inl at ↦ rw at (omega arith)
    | inr off ↦ rw off (omega arith)
  ]

  drop_key :
      (E : ℕ → Option (Entry Z)) (p q : ℕ) (key : Str)
      → to_nat (has_key key (store E p none q)) ≤ to_nat (has_key key (E q)) + to_nat false
  drop_key E p q key = elim (Bool-cases (q == p)) [
    | inl at ↦ rw at (omega arith)
    | inr off ↦ rw off (omega arith)
  ]

  -- The nodes after one of them, that of the entry at `p`, has left the map and its entry is freed.
  module _ (d : Db Z) (nb ob nb' ob' : List (Chain ℕ)) (p : ℕ) (node : HNode ℕ) (ent : Entry Z)
      (v : IsDb d nb ob) (e : d.entries p ≡ some ent) (own : node.item ≡ p)
      (less : (f : HNode ℕ → Bool) → tally nb' ob' f + to_nat (f node) ≡ tally nb ob f) where
    abbrev pub left : Db Z
    left = record d { entries = store d.entries p none }

    none_at : tally nb' ob' (λ n. n.item == p) ≡ 0
    none_at = omega (
      arith,
      less (λ n. n.item == p),
      one_node d nb ob p ent v e,
      ap to_nat (ap (λ i. i == p) own ∙ ==-same p),
    )

    pub left_live : tally nb' ob' (is_stale left) ≡ 0
    left_live =
        let le = λ (c : Chain ℕ).
          count-le_sum (is_stale left) (is_stale d) (λ n. n.item == p) c
            (λ n. drop_wrong d.entries p n.item n.hcode) in
        omega
          (arith, none_at, less (is_stale d), v.live, le (chain_nodes nb'), le (chain_nodes ob'))

    pub left_keys :
        (key : Str)
        → tally nb' ob' (entry_eq left key) + to_nat (entry_eq d key node)
          ≤ tally nb ob (entry_eq d key)
    left_keys key =
        let le = λ (c : Chain ℕ).
          count-le_sum (entry_eq left key) (entry_eq d key) (λ n. false) c
            (λ n. drop_key d.entries p n.item key) in
        let none_false = λ (c : Chain ℕ). count-false c in
        omega (
          arith,
          less (entry_eq d key),
          le (chain_nodes nb'),
          le (chain_nodes ob'),
          none_false (chain_nodes nb'),
          none_false (chain_nodes ob'),
        )

    pub left_below : (q : ℕ) (x : Entry Z) → left.entries q ≡ some x → q < d.fresh
    left_below q x f = elim (store-cases d.entries p q none (some x) f) [
      | inl (same, odd) ↦ cc
      | inr (off, g) ↦ v.below q x g
    ]

    pub left_rooted :
        (q : ℕ) (x : Entry Z) → left.entries q ≡ some x → 0 < tally nb' ob' (λ n. n.item == q)
    left_rooted q x f = elim (store-cases d.entries p q none (some x) f) [
      | inl (same, odd) ↦ cc
      | inr (off, g) ↦ omega (
        arith,
        v.rooted q x g,
        less (λ n. n.item == q),
        ap to_nat (ap (λ i. i == q) own ∙ ==-false p q (λ same. off (sym same))),
      )
    ]

    pub left_other : (q : ℕ) (x : Entry Z) → q ≢ p → IsEntry d nb ob q x → IsEntry left nb' ob' q x
    left_other q x off (f, here) = (
      store-other d.entries p q none off ∙ f,
      omega (
        arith,
        here,
        less (λ n. n.item == q),
        ap to_nat (ap (λ i. i == q) own ∙ ==-false p q (λ same. off (sym same))),
      ),
    )

    pub left_kept :
        (q : ℕ) (x : Entry Z) → x.key ≢ ent.key → IsEntry d nb ob q x → IsEntry left nb' ob' q x
    left_kept q x other (f, here) =
        left_other q x (λ same. other (some-key x ent (sym f ∙ ap d.entries same ∙ e))) (f, here)

    pub left_only : (q : ℕ) (x : Entry Z) → IsEntry left nb' ob' q x → IsEntry d nb ob q x
    left_only q x (f, here) = elim (store-cases d.entries p q none (some x) f) [
      | inl (same, odd) ↦ cc
      | inr (off, g) ↦ (g, omega (arith, here, less (λ n. n.item == q)))
    ]
