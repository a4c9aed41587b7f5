-- ===== src/Dispatch/Expect.antt =====
-- server.cpp: `expect_zset`, and a lookup in the set it finds.
use redis_lite.Base.{
  ℕ, ◌≡◌, ◌≢◌, ◌⊎◌, inl, inr, refl, ◌∙◌, sym, ap, Bool, true, false, List, Option, none, some,
  ◌>>=◌, ◌==◌, if◌then◌else◌, Bool-cases, Returns,
}
use redis_lite.Base.Memory.{store, ==-true, ==-same}
use redis_lite.Bytes.{Str}
use redis_lite.HashTable.{Chain}
use redis_lite.HashTable.Lookup.{tally}
use redis_lite.Db.{t_zset, Entry, Db, lookup_key, entry_eq}
use redis_lite.Db.Lookup.{lookup_key-Found}
use redis_lite.Db.Timers.{same_bool}
use redis_lite.Db.Same.{IsTimed-same}
use redis_lite.ZSet.{ZNode, ZSet, zset_lookup}
use redis_lite.ZSet.Lookup.{zset_lookup-Looked}
use redis_lite.ZSet.Stored.{no_name}
use redis_lite.Dispatch.Sets.{
  empty_zset, Found, no_key, wrong_type, zset_of, expect_zset, lookup_in, get_zset, put_zset,
}
use redis_lite.Dispatch.Safe.{IsSafe}
use redis_lite.Dispatch.Stored.{put-IsSafe}

-- No entry has the key, or one has it that is not a sorted set, or one that is.
abbrev pub IsExpected : (d : Db ZSet) → List (Chain ℕ) → List (Chain ℕ) → Str → Found → Type 0
IsExpected d nb ob key found =
    ((found ≡ no_key) × (tally nb ob (entry_eq d key) ≡ 0))
    ⊎ (((p : ℕ) × (ent : Entry ZSet) × (found ≡ wrong_type)
          × (d.entries p ≡ some ent)
          × (ent.key ≡ key)
          × (ent.type ≢ t_zset))
        ⊎ ((p : ℕ) × (ent : Entry ZSet) × (found ≡ zset_of p)
            × (d.entries p ≡ some ent)
            × (ent.key ≡ key)
            × (ent.type ≡ t_zset)))

expect_none :
    (d d₁ : Db ZSet) (key : Str)
    → lookup_key d key ≡ some (none, d₁)
    → expect_zset d key ≡ some (no_key, d₁)
unfolding expect_zset
expect_none d d₁ key e = rw (e, ◌>>=◌) refl

expect_entry :
    (d d₁ : Db ZSet) (key : Str) (p : ℕ) (ent : Entry ZSet) (b : Bool)
    → lookup_key d key ≡ some (some p, d₁)
    → d₁.entries p ≡ some ent
    → (ent.type == t_zset) ≡ b
    → expect_zset d key ≡ some (if b then zset_of p else wrong_type, d₁)
unfolding expect_zset
expect_entry d d₁ key p ent b e f t = rw (e, ◌>>=◌, f, t) refl

pub expect_zset-IsExpected :
    (d : Db ZSet) (key : Str) (v : IsSafe d)
    → Returns
        (λ (r : Found × Db ZSet).
          IsSafe r.1 × (r.1.entries ≡ d.entries) × IsExpected d v.nb v.ob key r.0)
        (expect_zset d key)
expect_zset-IsExpected d key v =
    let ((o, d₁), run, (nb, ob, s)) = lookup_key-Found d v.nb v.ob key v.db in
    let v₁ : IsSafe d₁ = record {
      nb = nb;
      ob = ob;
      db = s.valid;
      timed = IsTimed-same d d₁ v.timed s.entries s.heap;
      sets = λ p x f. v.sets p x (ap (λ E. E p) (sym s.entries) ∙ f);
    } in
    elim s.answer [
      | inl (e, missing) ↦ (
        _,
        expect_none d d₁ key (run ∙ ap (λ q. some (q, d₁)) e),
        (v₁, s.entries, inl (refl, missing)),
      )
      | inr (p, ent, e, (f, here), k) ↦
          let g : d₁.entries p ≡ some ent = ap (λ E. E p) s.entries ∙ f in
          let found = run ∙ ap (λ q. some (q, d₁)) e in
          elim (Bool-cases (ent.type == t_zset)) [
            | inl is_set ↦ (
              _,
              expect_entry d d₁ key p ent true found g is_set,
              (v₁, s.entries, inr (inr (p, ent, refl, f, k, ==-true ent.type t_zset is_set))),
            )
            | inr other ↦ (
              _,
              expect_entry d d₁ key p ent false found g other,
              (
                v₁,
                s.entries,
                inr (
                    inl (
                      p,
                      ent,
                      refl,
                      f,
                      k,
                      λ t. same_bool (ap (λ i. i == t_zset) t ∙ ==-same t_zset) other,
                    )),
              ),
            )
          ]
    ]

-- The entry at an address before and after a command that changes its set only.
pub record InSet (E : ℕ → Option (Entry ZSet)) (key : Str) (E' : ℕ → Option (Entry ZSet)) (at : ℕ)
    (ent : Entry ZSet) (z : ZSet) : Type 0 where
  pub before : E at ≡ some ent
  pub owned : ent.key ≡ key
  pub type : ent.type ≡ t_zset
  pub after : E' at ≡ some (record ent { zset = z })
  pub others : (q : ℕ) → q ≢ at → E' q ≡ E q

-- A node of the set has the name, or none has.
abbrev pub IsNamed : ZSet → Str → Option ℕ → Type 0
IsNamed z name o =
    ((o ≡ none) × ((q : ℕ) (m : ZNode) → z.nodes q ≡ some m → m.name ≢ name))
    ⊎ ((q : ℕ) × (m : ZNode) × (o ≡ some q) × (z.nodes q ≡ some m) × (m.name ≡ name))

lookup_in_run :
    (d d' : Db ZSet) (found : Found) (name : Str)
    (next : Db ZSet → ZSet → Option ℕ → Option (Db ZSet × List ℕ)) (z z' : ZSet) (o : Option ℕ)
    → get_zset d found ≡ some z
    → zset_lookup z name ≡ some (o, z')
    → put_zset d found z' ≡ some d'
    → lookup_in d found name next ≡ next d' z' o
unfolding lookup_in
lookup_in_run d d' found name next z z' o e f g = rw (e, ◌>>=◌, f, g) refl

lookup_empty : (name : Str) → zset_lookup empty_zset name ≡ some (none, empty_zset)
unfolding zset_lookup
lookup_empty name = refl

pub lookup_in-no_key :
    (d : Db ZSet) (name : Str) (next : Db ZSet → ZSet → Option ℕ → Option (Db ZSet × List ℕ))
    → lookup_in d no_key name next ≡ next d empty_zset none
lookup_in-no_key d name next =
    lookup_in_run d d no_key name next empty_zset empty_zset none refl (lookup_empty name) refl

-- The lookup changes the map of the set only.
pub record LookedIn (d : Db ZSet) (p : ℕ) (ent : Entry ZSet) (name : Str) (d' : Db ZSet) (z : ZSet)
    (o : Option ℕ) : Type 0 where
  pub safe : IsSafe d'
  pub entries : d'.entries ≡ store d.entries p (some (record ent { zset = z }))
  pub root : z.root ≡ ent.zset.root
  pub nodes : z.nodes ≡ ent.zset.nodes
  pub named : IsNamed z name o

pub lookup_in-LookedIn :
    (d : Db ZSet) (p : ℕ) (ent : Entry ZSet) (name : Str)
    (next : Db ZSet → ZSet → Option ℕ → Option (Db ZSet × List ℕ))
    → IsSafe d
    → d.entries p ≡ some ent
    → (d' : Db ZSet) × (z : ZSet) × (o : Option ℕ) × (lookup_in d (zset_of p) name next
        ≡ next d' z o)
      × LookedIn d p ent name d' z o
lookup_in-LookedIn d p ent name next v e =
    let (nb, ob, w) = v.sets p ent e in
    let ((o, z), run, (nb', ob', s)) = zset_lookup-Looked ent.zset nb ob name w in
    (
      record d { entries = store d.entries p (some (record ent { zset = z })) },
      z,
      o,
      lookup_in_run d _ (zset_of p) name next ent.zset z o (rw (e, ◌>>=◌) refl) run
          (rw (e, ◌>>=◌) refl),
      record {
        safe = put-IsSafe d p ent z v e (nb', ob', s.valid);
        entries = refl;
        root = s.root;
        nodes = s.nodes;
        named = elim s.answer [
          | inl (gone, missing) ↦ inl (gone, no_name z nb' ob' name s.valid missing)
          | inr (q, m, found, f, same, _) ↦ inr (q, m, found, f, same)
        ];
      },
    )
