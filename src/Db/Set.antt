-- ===== src/Db/Set.antt =====
-- `do_set` of server.cpp.
use redis_lite.Base.{
  ℕ, ◌+◌, ◌≤◌, ◌≡◌, ◌≢◌, inl, inr, refl, ◌∙◌, sym, ap, Bool, false, List, Option, none, some, ◌==◌,
  arith, to_nat, Bool-cases, Option-cases,
}
use mathlib.Core.Bool.{not}
use redis_lite.Bytes.{Str}
use redis_lite.HashTable.{HNode, HMap, Chain}
use redis_lite.HashTable.Buckets.{chain_nodes}
use redis_lite.HashTable.Lookup.{tally}
use redis_lite.HashTable.Insert.{Inserted}
use redis_lite.Db.{Entry, Db, t_str, no_timer, str_hash, same_str, store, has_key, entry_eq}
use redis_lite.Db.Lookup.{IsDb, IsEntry, is_wrong, is_stale, same_str_sound}
use redis_lite.Db.Store.{
  ==-false, ==-same, store-same, store-other, store-cases, some-key, count-le_sum, count-same,
  update_unseen, add_wrong, add_key,
}

module _ {Z : Type 0} where
  -- The key has the value now, as a string, and the entries of other keys are the same.
  pub record HasValue (d : Db Z) (nb ob : List (Chain ℕ)) (key val : Str) (d' : Db Z)
      (nb' ob' : List (Chain ℕ)) : Type 0 where
    pub valid : IsDb d' nb' ob'
    pub has :
        (p : ℕ) × (ent : Entry Z) × IsEntry d' nb' ob' p ent
        × (ent.key ≡ key)
        × (ent.type ≡ t_str)
        × (ent.str ≡ val)
    pub kept :
        (p : ℕ) (ent : Entry Z) → ent.key ≢ key → IsEntry d nb ob p ent → IsEntry d' nb' ob' p ent
    pub only :
        (p : ℕ) (ent : Entry Z) → ent.key ≢ key → IsEntry d' nb' ob' p ent → IsEntry d nb ob p ent

  -- A string is overwritten.
  pub update-HasValue :
      (d : Db Z) (nb ob : List (Chain ℕ)) (key val : Str) (p : ℕ) (ent : Entry Z)
      → IsDb d nb ob
      → IsEntry d nb ob p ent
      → ent.key ≡ key
      → ent.type ≡ t_str
      → HasValue d nb ob key val
          (record d { entries = store d.entries p (some (record ent { str = val })) })
          nb
          ob
  update-HasValue d nb ob key val p ent v (e, member) k t =
      let new : Entry Z = record ent { str = val } in
      let E : ℕ → Option (Entry Z) = store d.entries p (some new) in
      let unseen = λ (f : Option (Entry Z) → Bool) (n : ℕ) (s : f (some new) ≡ f (some ent)).
        update_unseen d.entries p f ent new n e s in
      record {
        valid = record {
          map = v.map;
          live = omega (
            arith,
            v.live,
            count-same (is_stale (record d { entries = E })) (is_stale d) (chain_nodes nb)
                (λ n. unseen (is_wrong n.hcode) n.item refl),
            count-same (is_stale (record d { entries = E })) (is_stale d) (chain_nodes ob)
                (λ n. unseen (is_wrong n.hcode) n.item refl),
          );
          unique = λ l. omega (
            arith,
            v.unique l,
            count-same (entry_eq (record d { entries = E }) l) (entry_eq d l) (chain_nodes nb)
                (λ n. unseen (has_key l) n.item refl),
            count-same (entry_eq (record d { entries = E }) l) (entry_eq d l) (chain_nodes ob)
                (λ n. unseen (has_key l) n.item refl),
          );
          below = λ q x f. elim (store-cases d.entries p q (some new) (some x) f) [
            | inl (at, same) ↦ omega (arith, v.below p ent e)
            | inr (off, g) ↦ v.below q x g
          ];
          rooted = λ q x f. elim (store-cases d.entries p q (some new) (some x) f) [
            | inl (at, same) ↦ omega (arith, member, ap (λ i. tally nb ob (λ n. n.item == i)) at)
            | inr (off, g) ↦ v.rooted q x g
          ];
        };
        has = (p, new, (store-same d.entries p (some new), member), k, t, refl);
        kept = λ q x other (f, here). (
          store-other d.entries p q (some new)
                (λ at. other (sym (some-key ent x (sym e ∙ sym (ap d.entries at) ∙ f)) ∙ k))
              ∙ f,
          here,
        );
        only = λ q x other (f, here). (
          elim (store-cases d.entries p q (some new) (some x) f) [
            | inl (at, same) ↦ absurd (other (sym (some-key new x same) ∙ k))
            | inr (off, g) ↦ g
          ],
          here,
        );
      }

  pub free-none : (d : Db Z) (nb ob : List (Chain ℕ)) → IsDb d nb ob → d.entries d.fresh ≡ none
  free-none d nb ob v = elim (Option-cases (d.entries d.fresh)) [
    | inl e ↦ e
    | inr (ent, e) ↦ absurd (omega (arith, v.below d.fresh ent e))
  ]

  abbrev pub new_entry : Z → Str → Str → Entry Z
  new_entry zset key val = record { key = key; type = t_str; str = val; zset = zset }

  -- The database with a new entry.
  abbrev pub added : Db Z → Z → Str → Str → HMap ℕ → Db Z
  added d zset key val db = record {
    db = db;
    entries = store d.entries d.fresh (some (new_entry zset key val));
    heap = record d.heap { idx = store d.heap.idx d.fresh no_timer };
    fresh = d.fresh + 1;
  }

  module _ (d : Db Z) (nb ob : List (Chain ℕ)) (zset : Z) (key val : Str) (db : HMap ℕ)
      (nb' ob' : List (Chain ℕ)) (v : IsDb d nb ob)
      (ins : Inserted nb ob (record { hcode = str_hash key; item = d.fresh }) db nb' ob') where
    abbrev d' : Db Z
    d' = added d zset key val db

    fresh_wrong : is_wrong (str_hash key) (d'.entries d.fresh) ≡ false
    fresh_wrong =
        ap (is_wrong (str_hash key)) (store-same d.entries d.fresh (some (new_entry zset key val)))
        ∙ ap not (==-same (str_hash key))

    added_live : tally nb' ob' (is_stale d') ≡ 0
    added_live =
        let less = λ (n : HNode ℕ).
          add_wrong d.entries d.fresh (new_entry zset key val) n.hcode n.item
            (free-none d nb ob v) in
        omega (
          arith,
          v.live,
          ins.more (is_stale d'),
          ap to_nat fresh_wrong,
          count-le_sum (is_stale d') (is_stale d) (is_stale d) (chain_nodes nb)
              (λ n. omega (arith, less n)),
          count-le_sum (is_stale d') (is_stale d) (is_stale d) (chain_nodes ob)
              (λ n. omega (arith, less n)),
        )

    fresh_key : (l : Str) → has_key l (d'.entries d.fresh) ≡ same_str key l
    fresh_key l = ap (has_key l) (store-same d.entries d.fresh (some (new_entry zset key val)))

    added_keys : (l : Str) → tally nb ob (entry_eq d' l) ≤ tally nb ob (entry_eq d l)
    added_keys l =
        let less = λ (n : HNode ℕ).
          add_key d.entries d.fresh (new_entry zset key val) l n.hcode n.item
            (free-none d nb ob v) in
        omega (
          arith,
          v.live,
          count-le_sum (entry_eq d' l) (entry_eq d l) (is_stale d) (chain_nodes nb) less,
          count-le_sum (entry_eq d' l) (entry_eq d l) (is_stale d) (chain_nodes ob) less,
        )

    added_unique : tally nb ob (entry_eq d key) ≡ 0 → (l : Str) → tally nb' ob' (entry_eq d' l) ≤ 1
    added_unique missing l = elim (Bool-cases (same_str key l)) [
      | inl s ↦
          let old : tally nb ob (entry_eq d l) ≡ 0 =
            ap (λ k. tally nb ob (entry_eq d k)) (sym (same_str_sound key l s)) ∙ missing in
          omega (arith, ins.more (entry_eq d' l), added_keys l, ap to_nat (fresh_key l ∙ s), old)
      | inr s ↦
          omega
            (arith, ins.more (entry_eq d' l), added_keys l, ap to_nat (fresh_key l ∙ s), v.unique l)
    ]

    pub added-HasValue : tally nb ob (entry_eq d key) ≡ 0 → HasValue d nb ob key val d' nb' ob'
    added-HasValue missing =
        let new = new_entry zset key val in
        let at_fresh = λ (q : ℕ). ins.more (λ n. n.item == q) in
        record {
          valid = record {
            map = ins.valid;
            live = added_live;
            unique = added_unique missing;
            below = λ q x f. elim (store-cases d.entries d.fresh q (some new) (some x) f) [
              | inl (at, same) ↦ omega arith
              | inr (off, g) ↦ omega (arith, v.below q x g)
            ];
            rooted = λ q x f. elim (store-cases d.entries d.fresh q (some new) (some x) f) [
              | inl (at, same) ↦
                  omega (arith, at_fresh q, ap to_nat (ap (λ i. d.fresh == i) at ∙ ==-same d.fresh))
              | inr (off, g) ↦ omega (arith, at_fresh q, v.rooted q x g)
            ];
          };
          has = (
            d.fresh,
            new,
            (
              store-same d.entries d.fresh (some new),
              omega (arith, at_fresh d.fresh, ap to_nat (==-same d.fresh)),
            ),
            refl,
            refl,
            refl,
          );
          kept = λ q x other (f, here). (
            store-other d.entries d.fresh q (some new) (λ at. absurd (omega (arith, v.below q x f)))
                ∙ f,
            omega (arith, at_fresh q),
          );
          only = λ q x other (f, here).
              elim (store-cases d.entries d.fresh q (some new) (some x) f) [
                | inl (at, same) ↦ absurd (other (sym (some-key new x same)))
                | inr (off, g) ↦ (
                  g,
                  omega (arith, at_fresh q, ap to_nat (==-false d.fresh q (λ e. off (sym e)))),
                )
              ];
        }
