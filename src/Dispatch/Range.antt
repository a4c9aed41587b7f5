-- ===== src/Dispatch/Range.antt =====
-- server.cpp: `do_zquery` on a valid database.
use redis_lite.Base.{
  ℕ, ◌^◌, ◌<◌, ◌≡◌, ◌⊎◌, inl, inr, refl, ◌∙◌, ap, true, false, List, none, some, ◌>>=◌, arith,
  Bool-cases, Option-cases, Returns,
}
use redis_lite.Bytes.{Str}
use redis_lite.Number.{str2int}
use redis_lite.Db.{t_zset, Entry, Db}
use redis_lite.Reply.{out_arr, out_err, err_bad_arg}
use redis_lite.ZSet.{ZSet}
use redis_lite.Dispatch.Words.{expect_fp_number, expect_int}
use redis_lite.Dispatch.Sets.{
  no_key, zset_of, empty_zset, query_zset, not_positive, str2dbl, do_zquery,
}
use redis_lite.Dispatch.Safe.{IsSafe, IsRoomy, empty-IsSomeZSet}
use redis_lite.Dispatch.Expect.{expect_zset-IsExpected}
use redis_lite.Dispatch.Query.{IsListed, query_zset-Listed}
use redis_lite.Dispatch.Score.{IsRefused, IsAbsent}
use redis_lite.Dispatch.Arguments.{
  AreRead, str2int_short, zquery_bad_score, zquery_bad_offset, zquery_bad_limit, zquery_wrong,
  zquery_none, zquery_run,
}

module _ (strtod : Str → ℕ × ℕ) where
  -- The entry with the key is a sorted set, and the reply lists its nodes, or none for a limit that is
  -- not positive.
  abbrev pub IsAnswer : Db ZSet → Str → ℕ → Str → ℕ → ℕ → List ℕ → Db ZSet × List ℕ → Type 0
  IsAnswer d key val name off lim out r =
      (p : ℕ) × (ent : Entry ZSet) × (d.entries p ≡ some ent)
      × (ent.key ≡ key)
      × (ent.type ≡ t_zset)
      × (r.0.entries ≡ d.entries)
      × (((not_positive lim ≡ true) × (r.1 ≡ out_arr out 0))
          ⊎ ((not_positive lim ≡ false) × IsListed ent.zset val name off lim out r.1))

  abbrev pub IsQueried :
      (d : Db ZSet) → IsSafe d → Str → Str → Str → Str → Str → List ℕ → Db ZSet × List ℕ → Type 0
  IsQueried d v key score name offset limit out r =
      ((str2dbl strtod score ≡ none) × (r ≡ (d, out_err out err_bad_arg expect_fp_number)))
      ⊎ (((val : ℕ) × (str2dbl strtod score ≡ some val)
            × ((str2int offset ≡ none) ⊎ (str2int limit ≡ none))
            × (r ≡ (d, out_err out err_bad_arg expect_int)))
          ⊎ ((val off lim : ℕ) × AreRead strtod score offset limit val off lim
              × (IsRefused d key out r
                  ⊎ (IsAbsent d v key (out_arr out 0) r ⊎ IsAnswer d key val name off lim out r))))

  -- The answer from `k_empty_zset`.
  empty_answer :
      (val : ℕ) (name : Str) (off lim : ℕ) (out : List ℕ)
      → off < 2 ^ 64
      → query_zset empty_zset val name off lim out ≡ some (out_arr out 0)
  empty_answer val name off lim out short =
      let (nb, ob, w) = empty-IsSomeZSet in
      let (out', run, s) =
        query_zset-Listed empty_zset nb ob w (omega arith) lim val name off out short in
      elim s [ inl (_, e) ↦ run ∙ ap some e | inr (j, lt, _, _, _) ↦ absurd (omega (arith, lt)) ]

  read-Queried :
      (d : Db ZSet) (key score name offset limit : Str) (out : List ℕ) (v : IsSafe d)
      → IsRoomy d
      → (val off lim : ℕ) → AreRead strtod score offset limit val off lim
      → Returns
          (λ (r : Db ZSet × List ℕ).
            IsSafe r.0
            × (IsRefused d key out r
                ⊎ (IsAbsent d v key (out_arr out 0) r ⊎ IsAnswer d key val name off lim out r)))
          (do_zquery strtod d key score name offset limit out)
  read-Queried d key score name offset limit out v room val off lim r =
      let ((found, d₁), run, (v₁, same, answer)) = expect_zset-IsExpected d key v in
      let short = str2int_short offset off r.off_read in
      elim answer [
        | inl (e, missing) ↦
            let here = run ∙ ap (λ q. some (q, d₁)) e in
            elim (Bool-cases (not_positive lim)) [
              | inl none_asked ↦ (
                (d₁, out_arr out 0),
                zquery_none strtod d d₁ key score name offset limit out val off lim no_key r here
                    refl none_asked,
                (v₁, inr (inl (missing, same, refl))),
              )
              | inr some_asked ↦ (
                (d₁, out_arr out 0),
                zquery_run strtod d d₁ key score name offset limit out val off lim no_key empty_zset
                    (out_arr out 0) r here refl some_asked refl
                    (empty_answer val name off lim out short),
                (v₁, inr (inl (missing, same, refl))),
              )
            ]
        | inr (inl (p, ent, e, f, k, other)) ↦ (
          _,
          zquery_wrong strtod d d₁ key score name offset limit out val off lim r
              (run ∙ ap (λ q. some (q, d₁)) e),
          (v₁, inl (p, ent, f, k, other, same, refl)),
        )
        | inr (inr (p, ent, e, f, k, t)) ↦
            let here = run ∙ ap (λ q. some (q, d₁)) e in
            elim (Bool-cases (not_positive lim)) [
              | inl none_asked ↦ (
                (d₁, out_arr out 0),
                zquery_none strtod d d₁ key score name offset limit out val off lim (zset_of p) r
                    here refl none_asked,
                (v₁, inr (inr (p, ent, f, k, t, same, inl (none_asked, refl)))),
              )
              | inr some_asked ↦
                  let (nb, ob, w) = v.sets p ent f in
                  let (out', go, s) =
                    query_zset-Listed ent.zset nb ob w (omega (arith, room.sets p ent f)) lim val
                      name off out short in
                  (
                    (d₁, out'),
                    zquery_run strtod d d₁ key score name offset limit out val off lim (zset_of p)
                        ent.zset out' r here refl some_asked
                        (ap (λ o. o >>= λ (x : Entry ZSet). some x.zset) (ap (λ E. E p) same ∙ f))
                        go,
                    (v₁, inr (inr (p, ent, f, k, t, same, inr (some_asked, s)))),
                  )
            ]
      ]

  -- On a valid database with room in its sorted sets, `do_zquery` does not fault, the assertion of
  -- `out_end_arr` included, the database stays valid, and its entries are unchanged. The reply is an
  -- error if an argument is not a number or the key's entry is not a sorted set, and an empty array if
  -- no entry has the key or the limit is not positive. Otherwise it lists the names and scores of
  -- nodes of the key's sorted set, in the order of the tuples: from the position of the first tuple
  -- that is not less than the given one, moved by the offset, as many as half of the limit, rounded
  -- up, or all that are left; none if there is no such tuple or that is not a position of the set.
  pub do_zquery-Queried :
      (d : Db ZSet) (key score name offset limit : Str) (out : List ℕ) (v : IsSafe d)
      → IsRoomy d
      → Returns
          (λ (r : Db ZSet × List ℕ). IsSafe r.0 × IsQueried d v key score name offset limit out r)
          (do_zquery strtod d key score name offset limit out)
  do_zquery-Queried d key score name offset limit out v room =
      elim (Option-cases (str2dbl strtod score)) [
        | inl bad ↦
            (_, zquery_bad_score strtod d key score name offset limit out bad, (v, inl (bad, refl)))
        | inr (val, good) ↦ elim (Option-cases (str2int offset)) [
          | inl bad ↦ (
            _,
            zquery_bad_offset strtod d key score name offset limit out val good bad,
            (v, inr (inl (val, good, inl bad, refl))),
          )
          | inr (off, fine) ↦ elim (Option-cases (str2int limit)) [
            | inl bad ↦ (
              _,
              zquery_bad_limit strtod d key score name offset limit out val off good fine bad,
              (v, inr (inl (val, good, inr bad, refl))),
            )
            | inr (lim, all) ↦
                let r : AreRead strtod score offset limit val off lim = record {
                  val_read = good;
                  off_read = fine;
                  lim_read = all;
                } in
                let (res, run, (safe, s)) =
                  read-Queried d key score name offset limit out v room val off lim r in
                (res, run, (safe, inr (inr (val, off, lim, r, s))))
          ]
        ]
      ]
