-- ===== src/Db/Unique.antt =====
-- server.cpp: an entry of the map is counted under its key, and one entry has a key.
use redis_lite.Base.{
  ℕ, ◌+◌, ◌≤◌, ◌<◌, ◌≡◌, ◌≢◌, inl, inr, refl, ◌∙◌, sym, ap, true, false, List, [], ◌∷◌, some, ◌==◌,
  arith, to_nat, Bool-cases,
}
use redis_lite.Bytes.{Str}
use redis_lite.HashTable.{HNode, Chain}
use redis_lite.HashTable.Buckets.{chain_nodes}
use redis_lite.HashTable.Lookup.{tally}
use redis_lite.Db.{Entry, Db, has_key, same_str, entry_eq}
use redis_lite.Db.Lookup.{IsDb, IsEntry}
use redis_lite.Db.Store.{==-true, eq-cases, count-sum_le}

pub same_str-same : (s : Str) → same_str s s ≡ true
same_str-same [] = refl
same_str-same (b ∷ s) = ground (arith, same_str-same s)

module _ {Z : Type 0} where
  -- The node at an entry's address has the entry's key.
  at_key :
      (d : Db Z) (p : ℕ) (ent : Entry Z) (n : HNode ℕ)
      → d.entries p ≡ some ent
      → (n.item == p) ≡ true
      → entry_eq d ent.key n ≡ true
  at_key d p ent n e at =
      ap (has_key ent.key) (ap d.entries (==-true n.item p at) ∙ e) ∙ same_str-same ent.key

  one_at :
      (d : Db Z) (p : ℕ) (ent : Entry Z) (n : HNode ℕ)
      → d.entries p ≡ some ent
      → to_nat (n.item == p) + to_nat false ≤ to_nat (entry_eq d ent.key n)
  one_at d p ent n e = elim (Bool-cases (n.item == p)) [
    | inl at ↦ rw (at_key d p ent n e at, at) (omega arith)
    | inr off ↦ rw off (omega arith)
  ]

  two_at :
      (d : Db Z) (p q : ℕ) (ent x : Entry Z) (n : HNode ℕ)
      → d.entries p ≡ some ent
      → d.entries q ≡ some x
      → x.key ≡ ent.key
      → p ≢ q
      → to_nat (n.item == p) + to_nat (n.item == q) ≤ to_nat (entry_eq d ent.key n)
  two_at d p q ent x n e f k ne = elim (Bool-cases (n.item == p)) [
    | inl at ↦ elim (Bool-cases (n.item == q)) [
      | inl at' ↦ absurd (ne (sym (==-true n.item p at) ∙ ==-true n.item q at'))
      | inr off ↦ rw (at_key d p ent n e at, at, off) (omega arith)
    ]
    | inr off ↦ elim (Bool-cases (n.item == q)) [
      | inl at' ↦
          let h : entry_eq d ent.key n ≡ true =
            ap (λ l. entry_eq d l n) (sym k) ∙ at_key d q x n f at' in
          rw (h, off, at') (omega arith)
      | inr off' ↦ rw (off, off') (omega arith)
    ]
  ]

  -- An entry of the map is counted under its key.
  pub counted :
      (d : Db Z) (nb ob : List (Chain ℕ)) (p : ℕ) (ent : Entry Z)
      → IsEntry d nb ob p ent
      → 0 < tally nb ob (entry_eq d ent.key)
  counted d nb ob p ent (e, here) =
      let le = λ (c : Chain ℕ).
        count-sum_le (λ n. n.item == p) (λ n. false) (entry_eq d ent.key) c
          (λ n. one_at d p ent n e) in
      omega (arith, le (chain_nodes nb), le (chain_nodes ob))

  -- At most one node is at an entry's address.
  pub one_node :
      (d : Db Z) (nb ob : List (Chain ℕ)) (p : ℕ) (ent : Entry Z)
      → IsDb d nb ob
      → d.entries p ≡ some ent
      → tally nb ob (λ n. n.item == p) ≤ 1
  one_node d nb ob p ent v e =
      let le = λ (c : Chain ℕ).
        count-sum_le (λ n. n.item == p) (λ n. false) (entry_eq d ent.key) c
          (λ n. one_at d p ent n e) in
      omega (arith, le (chain_nodes nb), le (chain_nodes ob), v.unique ent.key)

  -- The entries of a key in a valid database are at one address.
  pub one_place :
      (d : Db Z) (nb ob : List (Chain ℕ)) (p q : ℕ) (ent x : Entry Z)
      → IsDb d nb ob
      → IsEntry d nb ob p ent
      → IsEntry d nb ob q x
      → x.key ≡ ent.key
      → p ≡ q
  one_place d nb ob p q ent x v (e, here) (f, there) k = elim (eq-cases p q) [
    | inl same ↦ same
    | inr ne ↦
        let le = λ (c : Chain ℕ).
          count-sum_le (λ n. n.item == p) (λ n. n.item == q) (entry_eq d ent.key) c
            (λ n. two_at d p q ent x n e f k ne) in
        absurd (omega (arith, le (chain_nodes nb), le (chain_nodes ob), v.unique ent.key))
  ]
