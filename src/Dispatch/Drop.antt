-- ===== src/Dispatch/Drop.antt =====
-- server.cpp: `do_zrem` on a valid database.
use redis_lite.Base.{
  ℕ, ◌<◌, ◌≡◌, ◌≢◌, ◌⊎◌, inl, inr, refl, ◌∙◌, sym, ap, false, List, Option, none, some, ◌>>=◌,
  arith, Returns,
}
use redis_lite.Base.Memory.{store, store-same, store-other}
use redis_lite.Bytes.{Str}
use redis_lite.Avl.Inorder.{size}
use redis_lite.Db.{Entry, Db}
use redis_lite.Reply.{out_int, out_err, err_bad_typ}
use redis_lite.ZSet.{ZNode, ZSet, zset_delete}
use redis_lite.ZSet.Remove.{zset_delete-Removed}
use redis_lite.Dispatch.Words.{expect_zset_text}
use redis_lite.Dispatch.Sets.{
  Found, no_key, wrong_type, zset_of, expect_zset, lookup_in, delete_node, do_zrem, is_wrong_type,
}
use redis_lite.Dispatch.Safe.{IsSafe, IsRoomy}
use redis_lite.Dispatch.Stored.{put-IsSafe}
use redis_lite.Dispatch.Expect.{expect_zset-IsExpected, InSet, lookup_in-no_key, lookup_in-LookedIn}
use redis_lite.Dispatch.Score.{IsRefused, IsAbsent, in_set}

-- The node with the name is gone from the set and its other nodes are the same, with the reply 1; or
-- none has the name, and the nodes are the same, with the reply 0.
abbrev pub IsDropped : Db ZSet → Str → Str → List ℕ → Db ZSet × List ℕ → Type 0
IsDropped d key name out r =
    (p : ℕ) × (ent : Entry ZSet) × (z : ZSet) × InSet d.entries key r.0.entries p ent z
    × (((r.1 ≡ out_int out 0)
          × (z.nodes ≡ ent.zset.nodes)
          × ((q : ℕ) (m : ZNode) → ent.zset.nodes q ≡ some m → m.name ≢ name))
        ⊎ ((q : ℕ) × (m : ZNode) × (r.1 ≡ out_int out 1)
            × (ent.zset.nodes q ≡ some m)
            × (m.name ≡ name)
            × (z.nodes q ≡ none)
            × ((i : ℕ) → i ≢ q → z.nodes i ≡ ent.zset.nodes i)))

zrem_wrong :
    (d d₁ : Db ZSet) (key name : Str) (out : List ℕ)
    → expect_zset d key ≡ some (wrong_type, d₁)
    → do_zrem d key name out ≡ some (d₁, out_err out err_bad_typ expect_zset_text)
unfolding do_zrem
zrem_wrong d d₁ key name out e = rw (e, ◌>>=◌) refl

zrem_found :
    (d d₁ : Db ZSet) (key name : Str) (out : List ℕ) (found : Found)
    → expect_zset d key ≡ some (found, d₁)
    → is_wrong_type found ≡ false
    → do_zrem d key name out ≡ lookup_in d₁ found name (delete_node found out)
unfolding do_zrem
zrem_found d d₁ key name out found e f = rw (e, ◌>>=◌, f) refl

abbrev with_set : Db ZSet → ℕ → Entry ZSet → ZSet → Db ZSet
with_set d p ent z = record d { entries = store d.entries p (some (record ent { zset = z })) }

delete_run :
    (out : List ℕ) (d : Db ZSet) (p : ℕ) (ent : Entry ZSet) (z z' : ZSet) (q : ℕ)
    → zset_delete z q ≡ some z'
    → d.entries p ≡ some ent
    → delete_node (zset_of p) out d z (some q) ≡ some (with_set d p ent z', out_int out 1)
delete_run out d p ent z z' q e f = rw (e, ◌>>=◌, f) refl

-- The set is replaced once more.
InSet-again :
    (E : ℕ → Option (Entry ZSet)) (key : Str) (d : Db ZSet) (p : ℕ) (ent : Entry ZSet) (z z' : ZSet)
    → InSet E key d.entries p ent z
    → InSet E key (with_set d p (record ent { zset = z }) z').entries p ent z'
InSet-again E key d p ent z z' s = record {
  before = s.before;
  owned = s.owned;
  type = s.type;
  after = store-same d.entries p (some (record ent { zset = z' }));
  others =
      λ q off. store-other d.entries p q (some (record ent { zset = z' })) off ∙ s.others q off;
}

-- The node with the name is deleted.
zrem_some :
    (d d₂ : Db ZSet) (key name : Str) (out : List ℕ) (p : ℕ) (ent : Entry ZSet) (z : ZSet) (q : ℕ)
    (m : ZNode)
    → IsSafe d₂
    → InSet d.entries key d₂.entries p ent z
    → z.root ≡ ent.zset.root
    → z.nodes ≡ ent.zset.nodes
    → size ent.zset.root < 2147483647
    → z.nodes q ≡ some m
    → m.name ≡ name
    → Returns
        (λ (r : Db ZSet × List ℕ). IsSafe r.0 × IsDropped d key name out r)
        (delete_node (zset_of p) out d₂ z (some q))
zrem_some d d₂ key name out p ent z q m v here root nodes small g n =
    let (nb, ob, w) = v.sets p (record ent { zset = z }) here.after in
    let (z', run, (nb', ob', s)) =
      zset_delete-Removed z nb ob q m w g (omega (arith, small, ap size root)) in
    let old = λ (i : ℕ). ap (λ N. N i) nodes in
    (
      _,
      delete_run out d₂ p (record ent { zset = z }) z z' q run here.after,
      (
        put-IsSafe d₂ p (record ent { zset = z }) z' v here.after (nb', ob', s.valid),
        (
          p,
          ent,
          z',
          InSet-again d.entries key d₂ p ent z z' here,
          inr (q, m, refl, sym (old q) ∙ g, n, s.gone, λ i off. s.others i off ∙ old i),
        ),
      ),
    )

-- On a valid database whose sorted sets have room, `do_zrem` does not fault, the assertion of
-- `zset_delete` included, and the database stays valid. If the key's entry is not a sorted set, or no
-- entry has the key, the entries are unchanged and the reply is an error or 0. Otherwise an entry with
-- the key is a sorted set: if a node of it has the name, that node is freed and the others are the
-- same, with the reply 1; if none has, the nodes are the same, with the reply 0. All other entries
-- are the same.
pub do_zrem-Dropped :
    (d : Db ZSet) (key name : Str) (out : List ℕ) (v : IsSafe d)
    → IsRoomy d
    → Returns
        (λ (r : Db ZSet × List ℕ).
          IsSafe r.0
          × (IsRefused d key out r
              ⊎ (IsAbsent d v key (out_int out 0) r ⊎ IsDropped d key name out r)))
        (do_zrem d key name out)
do_zrem-Dropped d key name out v room =
    let ((found, d₁), run, (v₁, same, answer)) = expect_zset-IsExpected d key v in
    elim answer [
      | inl (e, missing) ↦ (
        _,
        zrem_found d d₁ key name out no_key (run ∙ ap (λ q. some (q, d₁)) e) refl
            ∙ lookup_in-no_key d₁ name (delete_node no_key out),
        (v₁, inr (inl (missing, same, refl))),
      )
      | inr (inl (p, ent, e, f, k, other)) ↦ (
        _,
        zrem_wrong d d₁ key name out (run ∙ ap (λ q. some (q, d₁)) e),
        (v₁, inl (p, ent, f, k, other, same, refl)),
      )
      | inr (inr (p, ent, e, f, k, t)) ↦
          let (d₂, z, o, run', s) =
            lookup_in-LookedIn d₁ p ent name (delete_node (zset_of p) out) v₁
              (ap (λ E. E p) same ∙ f) in
          let start =
            zrem_found d d₁ key name out (zset_of p) (run ∙ ap (λ q. some (q, d₁)) e) refl ∙ run' in
          let here = in_set d.entries d₁.entries d₂.entries key p ent z same f k t s.entries in
          let old = λ (q : ℕ). ap (λ N. N q) s.nodes in
          elim s.named [
            | inl (gone, unnamed) ↦ (
              _,
              start ∙ ap (delete_node (zset_of p) out d₂ z) gone,
              (
                s.safe,
                inr (inr (p, ent, z, here, inl (refl, s.nodes, λ q m g. unnamed q m (old q ∙ g)))),
              ),
            )
            | inr (q, m, hit, g, n) ↦
                let (r, run₂, (safe, w)) =
                  zrem_some d d₂ key name out p ent z q m s.safe here s.root s.nodes
                    (room.sets p ent f) g n in
                (r, start ∙ ap (delete_node (zset_of p) out d₂ z) hit ∙ run₂, (safe, inr (inr w)))
          ]
    ]
