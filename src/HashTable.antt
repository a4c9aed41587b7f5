-- ===== src/HashTable.antt =====
-- hashtable.cpp: chained tables, and the pair of them that resizes progressively. A chain of
-- nodes linked by `next` is a list; the callback `eq(·, key)` is a test of nodes. `none` is an
-- access through NULL or outside an array, a failed assertion, or the model's fuel running out.
-- Sizes stay far below 2 ^ 64: each counted node and each bucket takes memory.
pub mod Buckets
pub mod Valid
pub mod Search
pub mod Rehash
pub mod Shape
pub mod Lookup
pub mod Delete
pub mod Insert
pub mod Foreach
use redis_lite.Base.{
  ℕ, zero, suc, ◌+◌, ◌-◌, ◌*◌, Bool, true, false, List, [], ◌∷◌, ◌&&◌, Option, none, some, ◌>>=◌,
  ltb, leb, ◌==◌, if◌then◌else◌, get_elem?, set, length, replicate,
}
use Prim.Native.Nat.{bit_and}

pub record HNode {ℓ} (A : Type ℓ) : Type ℓ where
  pub hcode : ℕ
  pub item : A

abbrev pub Chain {ℓ} : Type ℓ → Type ℓ
Chain A = List (HNode A)

-- `tab` is NULL, or the array of the heads of the chains.
pub record HTab {ℓ} (A : Type ℓ) : Type ℓ where
  pub tab : Option (List (Chain A))
  pub mask : ℕ
  pub size : ℕ

pub record HMap {ℓ} (A : Type ℓ) : Type ℓ where
  pub newer : HTab A
  pub older : HTab A
  pub migrate_pos : ℕ

abbrev pub k_rehashing_work : ℕ
k_rehashing_work = 128

abbrev pub k_max_load_factor : ℕ
k_max_load_factor = 8

module _ {ℓ} {A : Type ℓ} where
  -- `HTab{}`
  abbrev pub no_tab : HTab A
  no_tab = record { tab = none; mask = 0; size = 0 }

  -- `HMap{}`
  abbrev pub no_map : HMap A
  no_map = record { newer = no_tab; older = no_tab; migrate_pos = 0 }

  unfoldable pub h_init : ℕ → Option (HTab A)
  h_init n =
      if ltb 0 n && bit_and (n - 1) n == 0
      then some (record { tab = some (replicate n []); mask = n - 1; size = 0 })
      else none

  unfoldable pub h_insert : HTab A → HNode A → Option (HTab A)
  h_insert t node =
      let pos = bit_and node.hcode t.mask in
      t.tab >>= λ b. get_elem? b pos >>= λ next.
      some (record { tab = some (set b pos (node ∷ next)); mask = t.mask; size = t.size + 1 })

  -- `cur->hcode == key->hcode && eq(cur, key)`
  abbrev pub hits : ℕ → (HNode A → Bool) → HNode A → Bool
  hits hcode eq cur = cur.hcode == hcode && eq cur

  -- The walk down a chain: how many `next` links lie before the one that points to the node.
  unfoldable pub find_link : (HNode A → Bool) → Chain A → Option ℕ
  find_link hit [] = none
  find_link hit (cur ∷ c) = if hit cur then some 0 else (find_link hit c >>= λ i. some (suc i))

  -- `from` is the bucket and the number of the link in its chain; `none` inside is NULL.
  unfoldable pub h_lookup : HTab A → ℕ → (HNode A → Bool) → Option (Option (ℕ × ℕ))
  h_lookup t hcode eq = elim t.tab [
    | none ↦ some none
    | some b ↦
        let pos = bit_and hcode t.mask in
        get_elem? b pos >>= λ c. some (find_link (hits hcode eq) c >>= λ i. some (pos, i))
  ]

  -- `*from = (*from)->next`
  unfoldable pub unlink : Chain A → ℕ → Chain A
  unlink [] i = []
  unlink (x ∷ c) zero = c
  unlink (x ∷ c) (suc i) = x ∷ unlink c i

  unfoldable pub h_detach : HTab A → ℕ × ℕ → Option (HNode A × HTab A)
  h_detach t (pos, i) = t.tab >>= λ b. get_elem? b pos >>= λ c. get_elem? c i >>= λ node.
      some (node, record { tab = some (set b pos (unlink c i)); mask = t.mask; size = t.size - 1 })

  -- One round of the loop of `hm_help_rehashing`, with whether a node was moved.
  unfoldable pub rehash_step : HMap A → Option (Bool × HMap A)
  rehash_step m = m.older.tab >>= λ b. get_elem? b m.migrate_pos >>= λ c. elim c [
    | [] ↦ some (false, record m { migrate_pos = m.migrate_pos + 1 })
    | _ ∷ _ ↦ do
      (node, older) ← h_detach m.older (m.migrate_pos, 0)
      newer ← h_insert m.newer node
      some (true, record m { newer = newer; older = older })
  ]

  unfoldable pub rehash_loop : ℕ → ℕ → HMap A → Option (HMap A)
  rehash_loop zero nwork m = none
  rehash_loop (suc fuel) nwork m = elim (ltb nwork k_rehashing_work && ltb 0 m.older.size) [
    | false ↦ some m
    | true ↦
        rehash_step m >>= λ (moved, m'). rehash_loop fuel (if moved then nwork + 1 else nwork) m'
  ]

  -- Discards the old table if it is done.
  unfoldable pub discard : HMap A → HMap A
  discard m = elim m.older.tab [
    | none ↦ m
    | some b ↦ if m.older.size == 0 then record m { older = no_tab } else m
  ]

  unfoldable pub bucket_count : HTab A → ℕ
  bucket_count t = elim t.tab [ none ↦ 0 | some b ↦ length b ]

  -- A round moves a node, at most 128 times, or passes a bucket of the old table.
  unfoldable pub hm_help_rehashing : HMap A → Option (HMap A)
  hm_help_rehashing m =
      rehash_loop (k_rehashing_work + bucket_count m.older + 1) 0 m >>= λ m'. some (discard m')

  unfoldable pub hm_trigger_rehashing : HMap A → Option (HMap A)
  hm_trigger_rehashing m = h_init ((m.newer.mask + 1) * 2) >>= λ t.
      some (record { newer = t; older = m.newer; migrate_pos = 0 })

  -- `*from`
  unfoldable pub node_at : HTab A → ℕ × ℕ → Option (HNode A)
  node_at t (pos, i) = t.tab >>= λ b. get_elem? b pos >>= λ c. get_elem? c i

  unfoldable pub hm_lookup : HMap A → ℕ → (HNode A → Bool) → Option (Option (HNode A) × HMap A)
  hm_lookup m hcode eq = do
    m' ← hm_help_rehashing m
    from ← h_lookup m'.newer hcode eq
    elim from [
      | some l ↦ node_at m'.newer l >>= λ node. some (some node, m')
      | none ↦ h_lookup m'.older hcode eq >>= λ from'. elim from' [
        | some l ↦ node_at m'.older l >>= λ node. some (some node, m')
        | none ↦ some (none, m')
      ]
    ]

  -- `if (!hmap->newer.tab) { h_init(&hmap->newer, 4); }`
  unfoldable pub first_init : HMap A → Option (HMap A)
  first_init m = elim m.newer.tab [
    | some _ ↦ some m
    | none ↦ h_init 4 >>= λ t. some (record m { newer = t })
  ]

  -- The test of the load factor.
  unfoldable pub grow : HMap A → Option (HMap A)
  grow m = elim m.older.tab [
    | some _ ↦ some m
    | none ↦
        if leb ((m.newer.mask + 1) * k_max_load_factor) m.newer.size
        then hm_trigger_rehashing m
        else some m
  ]

  unfoldable pub hm_insert : HMap A → HNode A → Option (HMap A)
  hm_insert m node = do
    m₁ ← first_init m
    newer ← h_insert m₁.newer node
    m₂ ← grow (record m₁ { newer = newer })
    hm_help_rehashing m₂

  unfoldable pub hm_delete : HMap A → ℕ → (HNode A → Bool) → Option (Option (HNode A) × HMap A)
  hm_delete m hcode eq = do
    m' ← hm_help_rehashing m
    from ← h_lookup m'.newer hcode eq
    elim from [
      | some l ↦ h_detach m'.newer l >>= λ (node, t). some (some node, record m' { newer = t })
      | none ↦ h_lookup m'.older hcode eq >>= λ from'. elim from' [
        | some l ↦ h_detach m'.older l >>= λ (node, t). some (some node, record m' { older = t })
        | none ↦ some (none, m')
      ]
    ]

  unfoldable pub hm_clear : HMap A → HMap A
  hm_clear m = no_map

  unfoldable pub hm_size : HMap A → ℕ
  hm_size m = m.newer.size + m.older.size

-- The callback gets its `arg` as a state.
module _ {ℓ κ} {A : Type ℓ} {S : Type κ} (f : HNode A → S → Bool × S) where
  unfoldable pub foreach_chain : Chain A → S → Bool × S
  foreach_chain [] s = (true, s)
  foreach_chain (node ∷ c) s =
      let (more, s') = f node s in elim more [ true ↦ foreach_chain c s' | false ↦ (false, s') ]

  -- `n` buckets from bucket `i` on.
  unfoldable pub foreach_buckets : ℕ → ℕ → List (Chain A) → S → Option (Bool × S)
  foreach_buckets zero i b s = some (true, s)
  foreach_buckets (suc n) i b s = get_elem? b i >>= λ c.
      let (more, s') = foreach_chain c s in
      elim more [ true ↦ foreach_buckets n (i + 1) b s' | false ↦ some (false, s') ]

  unfoldable pub h_foreach : HTab A → S → Option (Bool × S)
  h_foreach t s =
      if t.mask == 0 then some (true, s) else (t.tab >>= λ b. foreach_buckets (t.mask + 1) 0 b s)

  unfoldable pub hm_foreach : HMap A → S → Option S
  hm_foreach m s = h_foreach m.newer s >>= λ (more, s'). elim more [
    | true ↦ h_foreach m.older s' >>= λ r. some r.1
    | false ↦ some s'
  ]
