-- ===== src/Tests/HashTable.antt =====
-- hashtable.cpp on a map of two nodes in four buckets.
use redis_lite.Base.{ℕ, zero, suc, ◌≡◌, refl, Bool, List, [], ◌∷◌, Option, some, ◌==◌, arith, count}
use mathlib.Core.Bool.{not}
use redis_lite.HashTable.{
  HNode, HMap, Chain, hits, no_tab, hm_insert, hm_lookup, hm_delete, hm_foreach, foreach_chain,
  hm_help_rehashing,
}
use redis_lite.HashTable.Buckets.{bucket}
use redis_lite.HashTable.Valid.{is_misplaced}
use redis_lite.HashTable.Shape.{IsMap, single, Helped, hm_help_rehashing-Helped}
use redis_lite.HashTable.Lookup.{LookedUp, hm_lookup-LookedUp}
use redis_lite.HashTable.Delete.{Deleted, hm_delete-Deleted}
use redis_lite.HashTable.Insert.{Inserted, hm_insert-Inserted}
use redis_lite.HashTable.Foreach.{hm_foreach-chain}

abbrev node5 : HNode ℕ
node5 = record { hcode = 5; item = 50 }

abbrev node9 : HNode ℕ
node9 = record { hcode = 9; item = 90 }

abbrev two_chains : List (Chain ℕ)
two_chains = [] ∷ (node9 ∷ node5 ∷ []) ∷ [] ∷ [] ∷ []

abbrev two_nodes : HMap ℕ
two_nodes = record {
  newer = record { tab = some two_chains; mask = 3; size = 2 };
  older = no_tab;
  migrate_pos = 0;
}

two_chains_placed : (i : ℕ) → count (is_misplaced 3 i) (bucket two_chains i) ≡ 0
two_chains_placed zero = refl
two_chains_placed (suc zero) = refl
two_chains_placed (suc (suc zero)) = refl
two_chains_placed (suc (suc (suc zero))) = refl
two_chains_placed (suc (suc (suc (suc i)))) = refl

two_nodes-IsMap : IsMap two_nodes two_chains []
two_nodes-IsMap =
    single
      (record {
        array = refl;
        width = refl;
        wide = omega arith;
        power = refl;
        sized = refl;
        placed = two_chains_placed;
      })
      refl refl

-- The nodes with the item 50.
abbrev is_fifty : HNode ℕ → Bool
is_fifty n = n.item == 50

abbrev node13 : HNode ℕ
node13 = record { hcode = 13; item = 50 }

hm_insert-Inserted_example :
    (m' : HMap ℕ) × (hm_insert two_nodes node13 ≡ some m')
    × ((nb' : List (Chain ℕ)) × (ob' : List (Chain ℕ)) × Inserted two_chains [] node13 m' nb' ob')
hm_insert-Inserted_example = hm_insert-Inserted node13 two_nodes-IsMap

hm_lookup-LookedUp_example :
    (r : Option (HNode ℕ) × HMap ℕ) × (hm_lookup two_nodes 5 is_fifty ≡ some r)
    × ((nb' : List (Chain ℕ)) × (ob' : List (Chain ℕ)) × LookedUp two_chains []
          (hits 5 is_fifty)
          r
          nb'
          ob')
hm_lookup-LookedUp_example = hm_lookup-LookedUp 5 is_fifty two_nodes-IsMap

hm_delete-Deleted_example :
    (r : Option (HNode ℕ) × HMap ℕ) × (hm_delete two_nodes 5 is_fifty ≡ some r)
    × ((nb' : List (Chain ℕ)) × (ob' : List (Chain ℕ)) × Deleted two_chains []
          (hits 5 is_fifty)
          r
          nb'
          ob')
hm_delete-Deleted_example = hm_delete-Deleted 5 is_fifty two_nodes-IsMap

hm_help_rehashing-Helped_example :
    (m' : HMap ℕ) × (hm_help_rehashing two_nodes ≡ some m')
    × ((nb' : List (Chain ℕ)) × (ob' : List (Chain ℕ)) × Helped two_nodes two_chains [] m' nb' ob')
hm_help_rehashing-Helped_example = hm_help_rehashing-Helped two_nodes-IsMap

-- The callback collects the items and stops at 50.
abbrev collect : HNode ℕ → List ℕ → Bool × List ℕ
collect n xs = (not (is_fifty n), n.item ∷ xs)

hm_foreach-chain_example : hm_foreach collect two_nodes [] ≡ some (50 ∷ 90 ∷ [])
unfolding foreach_chain
hm_foreach-chain_example = hm_foreach-chain collect [] two_nodes-IsMap
