-- ===== src/Db/SetGet.antt =====
-- server.cpp: `do_get` after `do_set` of the same key.
use redis_lite.Base.{ℕ, ◌≡◌, inl, inr, refl, ◌∙◌, sym, ap, List, ◌>>=◌, arith, Returns}
use mathlib.Core.Option.{some-injective}
use redis_lite.Bytes.{Str}
use redis_lite.HashTable.{Chain}
use redis_lite.HashTable.Lookup.{tally}
use redis_lite.Reply.{out_str}
use redis_lite.Db.{Entry, Db, t_str, entry_eq}
use redis_lite.Db.Commands.{do_get, do_set}
use redis_lite.Db.Lookup.{IsDb, IsEntry}
use redis_lite.Db.Get.{get_reply, do_get-Got}
use redis_lite.Db.Write.{do_set-Wrote}
use redis_lite.Db.Unique.{counted, one_place}

module _ {Z : Type 0} where
  one_entry :
      (d : Db Z) (nb ob : List (Chain ℕ)) (p q : ℕ) (ent x : Entry Z)
      → IsDb d nb ob
      → IsEntry d nb ob p ent
      → IsEntry d nb ob q x
      → x.key ≡ ent.key
      → ent ≡ x
  one_entry d nb ob p q ent x v (e, here) (f, there) k =
      some-injective ent x
        (sym e ∙ ap d.entries (one_place d nb ob p q ent x v (e, here) (f, there) k) ∙ f)

  -- On a valid database, if no entry with the key holds anything but a string, then `do_set` and
  -- after it `do_get` of the same key do not fault, and the second reply is the value.
  pub do_set-do_get :
      (zset : Z) (d : Db Z) (nb ob : List (Chain ℕ)) (key val : Str) (out out' : List ℕ)
      → IsDb d nb ob
      → ((p : ℕ) (ent : Entry Z) → IsEntry d nb ob p ent → ent.key ≡ key → ent.type ≡ t_str)
      → Returns
          (λ (r : Db Z × List ℕ). r.1 ≡ out_str out' val)
          (do_set zset d key val out >>= λ r. do_get r.0 key out')
  do_set-do_get zset d nb ob key val out out' v strings =
      let (r, run, (nb₁, ob₁, w)) = do_set-Wrote zset d nb ob key val out v in
      elim w [
        | inr (p, ent, here, k, odd, _, _, _, _) ↦ absurd (odd (strings p ent here k))
        | inl (_, s, _) ↦
            let (r', run', (nb₂, ob₂, g)) = do_get-Got r.0 nb₁ ob₁ key out' s.valid in
            let (p, ent, here, k, t, value) = s.has in
            (
              r',
              ap (λ o. o >>= λ q. do_get q.0 key out') run ∙ run',
              elim g.reply [
                | inl (missing, _) ↦ absurd (
                    omega (
                      arith,
                      counted r.0 nb₁ ob₁ p ent here,
                      ap (λ l. tally nb₁ ob₁ (entry_eq r.0 l)) k,
                      missing,
                    ))
                | inr (q, x, there, l, reply) ↦
                    let same = one_entry r.0 nb₁ ob₁ p q ent x s.valid here there (l ∙ sym k) in
                    reply ∙ ap (λ y. get_reply y out') (sym same) ∙ rw (t, value) refl
              ],
            )
      ]
