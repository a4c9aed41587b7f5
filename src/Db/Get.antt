-- ===== src/Db/Get.antt =====
-- `do_get` of server.cpp.
use redis_lite.Base.{
  ℕ, ◌≡◌, ◌⊎◌, inl, inr, refl, ◌∙◌, ap, List, none, some, ◌>>=◌, ◌==◌, if◌then◌else◌,
}
use redis_lite.Bytes.{Str}
use redis_lite.HashTable.{Chain}
use redis_lite.HashTable.Rehash.{SameNodes}
use redis_lite.HashTable.Lookup.{tally}
use redis_lite.Reply.{out_nil, out_str, out_err, err_bad_typ}
use redis_lite.Db.{Entry, Db, t_str, entry_eq, lookup_key}
use redis_lite.Db.Commands.{do_get, not_a_string}
use redis_lite.Db.Lookup.{IsDb, IsEntry, lookup_key-Found}

module _ {Z : Type 0} where
  -- What `get` answers of an entry.
  abbrev pub get_reply : Entry Z → List ℕ → List ℕ
  get_reply ent out =
      if ent.type == t_str then out_str out ent.str else out_err out err_bad_typ not_a_string

  -- The entries and timers are unchanged; without an entry of the key the reply is nil, otherwise
  -- it is that of an entry with the key.
  pub record Got (d : Db Z) (nb ob : List (Chain ℕ)) (key : Str) (out : List ℕ) (r : Db Z × List ℕ)
      (nb' ob' : List (Chain ℕ)) : Type 0 where
    pub valid : IsDb r.0 nb' ob'
    pub same : SameNodes nb ob nb' ob'
    pub entries : r.0.entries ≡ d.entries
    pub heap : r.0.heap ≡ d.heap
    pub reply :
        ((tally nb ob (entry_eq d key) ≡ 0) × (r.1 ≡ out_nil out))
        ⊎ ((p : ℕ) × (ent : Entry Z) × IsEntry d nb ob p ent
            × (ent.key ≡ key)
            × (r.1 ≡ get_reply ent out))

  get_none :
      (d d' : Db Z) (key : Str) (out : List ℕ)
      → lookup_key d key ≡ some (none, d')
      → do_get d key out ≡ some (d', out_nil out)
  unfolding do_get
  get_none d d' key out e = rw e refl

  get_some :
      (d d' : Db Z) (key : Str) (out : List ℕ) (p : ℕ) (ent : Entry Z)
      → lookup_key d key ≡ some (some p, d')
      → d'.entries p ≡ some ent
      → do_get d key out ≡ some (d', get_reply ent out)
  unfolding do_get
  get_some d d' key out p ent e f = rw (e, ◌>>=◌, f) refl

  -- On a valid database `do_get` does not fault: the database stays valid with the same entries and
  -- timers; the reply is nil if no entry has the key, otherwise the string of an entry with the key,
  -- or an error if that entry is not a string.
  pub do_get-Got :
      (d : Db Z) (nb ob : List (Chain ℕ)) (key : Str) (out : List ℕ)
      → IsDb d nb ob
      → (r : Db Z × List ℕ) × (do_get d key out ≡ some r)
        × ((nb' : List (Chain ℕ)) × (ob' : List (Chain ℕ)) × Got d nb ob key out r nb' ob')
  do_get-Got d nb ob key out v =
      let ((o, d'), run, (nb', ob', s)) = lookup_key-Found d nb ob key v in
      elim s.answer [
        | inl (e, missing) ↦ (
          (d', out_nil out),
          get_none d d' key out (run ∙ ap (λ q. some (q, d')) e),
          (
            nb',
            ob',
            record {
              valid = s.valid;
              same = s.same;
              entries = s.entries;
              heap = s.heap;
              reply = inl (missing, refl);
            },
          ),
        )
        | inr (p, ent, e, here, k) ↦ (
          (d', get_reply ent out),
          get_some d d' key out p ent (run ∙ ap (λ q. some (q, d')) e)
              (ap (λ f. f p) s.entries ∙ here.0),
          (
            nb',
            ob',
            record {
              valid = s.valid;
              same = s.same;
              entries = s.entries;
              heap = s.heap;
              reply = inr (p, ent, here, k, refl);
            },
          ),
        )
      ]
