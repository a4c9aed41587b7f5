-- ===== src/Db/Processed.antt =====
-- `process_timers` of server.cpp, on all the entries whose timers have ended.
use redis_lite.Base.{
  ℕ, suc, ◌+◌, ◌≤◌, ◌<◌, ◌≡◌, ◌⊎◌, inl, inr, refl, ◌∙◌, ap, Bool, true, false, List, [], ◌∷◌, ltb,
  ◌==◌, ◌&&◌, arith, count, to_nat, length, ◌≢◌, sym, none, Option-cases,
}
use mathlib.Core.Bool.{not}
use redis_lite.HashTable.{Chain}
use redis_lite.Heap.{HeapItem}
use redis_lite.Heap.Links.{is_owner}
use redis_lite.Ttl.Owners.{linked_once}
use redis_lite.Db.{Entry, Db}
use redis_lite.Db.Store.{==-same, eq-cases}
use redis_lite.Db.Lookup.{IsDb, IsEntry}
use redis_lite.Db.Timers.{IsTimed}
use redis_lite.Db.Dated.{owner_away, not_both}
use redis_lite.Db.Expired.{has_ended, Expired}

-- A test that an owner's timers fail, by counting the others.
count-but :
    (f : HeapItem → Bool) (p : ℕ) (a : List HeapItem)
    → count f a ≤ count (λ t. f t && not (is_owner p t)) a + count (is_owner p) a
count-but f p [] = omega arith
count-but f p (t ∷ a) = ground (arith, count-but f p a)

count-but_le :
    (f : HeapItem → Bool) (p : ℕ) (a : List HeapItem)
    → count (λ t. f t && not (is_owner p t)) a ≤ count f a
count-but_le f p [] = omega arith
count-but_le f p (t ∷ a) = ground (arith, count-but_le f p a)

but_away :
    (f : HeapItem → Bool) (p : ℕ) (t : HeapItem) → t.ref ≡ p → (f t && not (is_owner p t)) ≡ false
but_away f p t e = let own = ap (λ r. r == p) e ∙ ==-same p in ground (arith, own)

head_ended :
    (now q : ℕ) (t : HeapItem) → q ≡ t.ref → ltb t.val now ≡ true → to_nat (has_ended now q t) ≡ 1
head_ended now q t same ended = ground (arith, same, ended)

ended_owner : (now q : ℕ) (a : List HeapItem) → count (has_ended now q) a ≤ count (is_owner q) a
ended_owner now q [] = omega arith
ended_owner now q (t ∷ a) = ground (arith, ended_owner now q a)

module _ {Z : Type 0} where
  -- What the loop leaves when it may still delete `left` entries: the database and its timers valid,
  -- only entries gone whose timers have ended, with each timer that is gone its entry gone as well, and
  -- all other timers kept. Either no timer that has
  -- ended is left, or as many entries are gone as were allowed.
  pub record Processed (now left : ℕ) (d : Db Z) (nb ob : List (Chain ℕ)) (d' : Db Z)
      (nb' ob' : List (Chain ℕ)) : Type 0 where
    pub valid : IsDb d' nb' ob'
    pub timed : IsTimed d'
    pub only : (q : ℕ) (x : Entry Z) → IsEntry d' nb' ob' q x → IsEntry d nb ob q x
    pub kept :
        (q : ℕ) (x : Entry Z)
        → IsEntry d nb ob q x
        → IsEntry d' nb' ob' q x ⊎ (0 < count (has_ended now q) d.heap.items)
    pub timers :
        (f : HeapItem → Bool)
        → ((t : HeapItem) → ltb t.val now ≡ true → f t ≡ false)
        → count f d'.heap.items ≡ count f d.heap.items
    pub freed :
        (q : ℕ)
        → 0 < count (is_owner q) d.heap.items
        → count (is_owner q) d'.heap.items ≡ 0
        → d'.entries q ≡ none
    pub bounded : length d.heap.items ≤ length d'.heap.items + left
    pub all :
        (count (λ t. ltb t.val now) d'.heap.items ≡ 0)
        ⊎ (length d'.heap.items + left ≡ length d.heap.items)

  pub same-Processed :
      (now left : ℕ) (d : Db Z) (nb ob : List (Chain ℕ))
      → IsDb d nb ob
      → IsTimed d
      → count (λ t. ltb t.val now) d.heap.items ≡ 0
      → Processed now left d nb ob d nb ob
  same-Processed now left d nb ob v t e = record {
    valid = v;
    timed = t;
    only = λ q x here. here;
    kept = λ q x here. inl here;
    timers = λ f h. refl;
    freed = λ q had gone. absurd (omega (arith, had, gone));
    bounded = omega arith;
    all = inl e;
  }

  module _ (now : ℕ) (d : Db Z) (nb ob : List (Chain ℕ)) (t : HeapItem) (r : List HeapItem)
      (v : IsTimed d) (e : d.heap.items ≡ t ∷ r) (ended : ltb t.val now ≡ true) (d₁ : Db Z)
      (nb₁ ob₁ : List (Chain ℕ)) (s : Expired d nb ob t.ref d₁ nb₁ ob₁) where
    owner_here : 0 < count (is_owner t.ref) d.heap.items
    owner_here = omega (arith, ap (λ a. count (is_owner t.ref) a) e, ap to_nat (==-same t.ref))

    -- The owner's ended timer is the only one it had.
    step_timers :
        (f : HeapItem → Bool)
        → ((u : HeapItem) → ltb u.val now ≡ true → f u ≡ false)
        → count f d₁.heap.items ≡ count f d.heap.items
    step_timers f h = omega (
      arith,
      s.timers (λ u. f u && not (is_owner t.ref u)) (but_away f t.ref),
      s.gone,
      count-but f t.ref d₁.heap.items,
      count-but_le f t.ref d₁.heap.items,
      ap (λ a. count f a) e,
      ap (λ a. count (λ u. f u && not (is_owner t.ref u)) a) e,
      ap (λ a. count (is_owner t.ref) a) e,
      linked_once d.heap t.ref v.heap.linked,
      ap to_nat (==-same t.ref),
      ap to_nat (h t ended),
      ap to_nat (but_away f t.ref t refl),
      count-but f t.ref r,
      count-but_le f t.ref r,
    )

    step_kept :
        (q : ℕ) (x : Entry Z)
        → IsEntry d nb ob q x
        → IsEntry d₁ nb₁ ob₁ q x ⊎ (0 < count (has_ended now q) d.heap.items)
    step_kept q x here = elim (eq-cases q t.ref) [
      | inl same ↦
          inr (omega (arith, ap (λ a. count (has_ended now q) a) e, head_ended now q t same ended))
      | inr off ↦ inl (s.others q x off here)
    ]

    -- An ended timer of another entry was there before.
    step_ended :
        (q : ℕ)
        → 0 < count (has_ended now q) d₁.heap.items
        → 0 < count (has_ended now q) d.heap.items
    step_ended q some_left = elim (eq-cases q t.ref) [
      | inl same ↦ absurd (
          omega (
            arith,
            some_left,
            s.gone,
            ap (λ o. count (is_owner o) d₁.heap.items) same,
            ended_owner now q d₁.heap.items,
          ))
      | inr off ↦ omega (
        arith,
        some_left,
        s.timers (has_ended now q)
            (λ u f. ap (λ b. b && ltb u.val now) (owner_away t.ref q off u f)),
      )
    ]

    other_timers :
        (q : ℕ) → q ≢ t.ref → count (is_owner q) d₁.heap.items ≡ count (is_owner q) d.heap.items
    other_timers q off = s.timers (is_owner q) (owner_away t.ref q off)

    stays_freed :
        (q : ℕ) (d' : Db Z) (nb' ob' : List (Chain ℕ))
        → IsDb d' nb' ob'
        → ((i : ℕ) (x : Entry Z) → IsEntry d' nb' ob' i x → IsEntry d₁ nb₁ ob₁ i x)
        → d₁.entries q ≡ none
        → d'.entries q ≡ none
    stays_freed q d' nb' ob' v' only gone = elim (Option-cases (d'.entries q)) [
      | inl none_left ↦ none_left
      | inr (x, f) ↦ absurd (not_both (sym gone ∙ (only q x (f, v'.rooted q x f)).0))
    ]

    pub join-Processed :
        (left : ℕ) (d' : Db Z) (nb' ob' : List (Chain ℕ))
        → Processed now left d₁ nb₁ ob₁ d' nb' ob'
        → Processed now (suc left) d nb ob d' nb' ob'
    join-Processed left d' nb' ob' w = record {
      valid = w.valid;
      timed = w.timed;
      only = λ q x here. s.only q x (w.only q x here);
      kept = λ q x here. elim (step_kept q x here) [
        | inl still ↦ elim (w.kept q x still) [
          | inl last ↦ inl last
          | inr late ↦ inr (step_ended q late)
        ]
        | inr late ↦ inr late
      ];
      timers = λ f h. w.timers f h ∙ step_timers f h;
      freed = λ q had gone. elim (eq-cases q t.ref) [
        | inl same ↦ stays_freed q d' nb' ob' w.valid w.only (ap (λ i. d₁.entries i) same ∙ s.freed)
        | inr off ↦ w.freed q (omega (arith, had, other_timers q off)) gone
      ];
      bounded = omega (arith, w.bounded, s.shorter);
      all = elim w.all [ inl e ↦ inl e | inr e ↦ inr (omega (arith, e, s.shorter)) ];
    }

    pub last-Processed : Processed now 1 d nb ob d₁ nb₁ ob₁
    last-Processed = record {
      valid = s.valid;
      timed = s.timed;
      only = s.only;
      kept = step_kept;
      timers = step_timers;
      freed = λ q had gone. elim (eq-cases q t.ref) [
        | inl same ↦ ap (λ i. d₁.entries i) same ∙ s.freed
        | inr off ↦ absurd (omega (arith, had, gone, other_timers q off))
      ];
      bounded = omega (arith, s.shorter);
      all = inr s.shorter;
    }
