-- ===== src/Tests/Server.antt =====
-- list.h and the connections of server.cpp, on an idle list of two connections.
use redis_lite.Base.{ℕ, ◌≡◌, refl, List, [], ◌∷◌, Option, none, some, arith, get_or, Returns}
use redis_lite.Base.Memory.{store}
use redis_lite.Conn.{accepted_conn}
use redis_lite.Heap.{HeapItem}
use redis_lite.Heap.Order.{IsHeap}
use redis_lite.DList.{DList, dlist_init, dlist_detach, dlist_insert_before}
use redis_lite.DList.Ring.{IsRing}
use redis_lite.DList.Refined.{dlist_init-IsRing, dlist_detach-IsRing, dlist_insert_before-IsRing}
use redis_lite.Server.{Server, accept_turn, conn_destroy, expire_idle, next_timer_ms}
use redis_lite.Server.Valid.{IsServer, Destroyed, conn_destroy-Destroyed, not_none}
use redis_lite.Server.Accept.{Accepted, accept_turn-Accepted, accepted-IsServer}
use redis_lite.Server.Idle.{IsAged, Idled, expire_idle-Idled}
use redis_lite.Server.Timers.{IsSoonest, IsWait, next_timer_ms-IsSoonest}

abbrev no_links : DList
no_links = record { prev = λ p. 0; next = λ p. 0 }

abbrev empty_list : DList
empty_list = dlist_init no_links 0

empty_list-IsRing : IsRing empty_list 0 []
empty_list-IsRing = dlist_init-IsRing no_links 0

dlist_insert_before-IsRing_example : IsRing (dlist_insert_before empty_list 0 1) 0 (1 ∷ [])
dlist_insert_before-IsRing_example =
    dlist_insert_before-IsRing empty_list 0 [] 1 empty_list-IsRing (omega arith)

one-IsRing : IsRing (dlist_insert_before empty_list 0 1) 0 (1 ∷ [])
one-IsRing = dlist_insert_before-IsRing empty_list 0 [] 1 empty_list-IsRing (omega arith)

abbrev two_links : DList
two_links = dlist_insert_before (dlist_insert_before empty_list 0 1) 0 2

two-IsRing : IsRing two_links 0 (1 ∷ 2 ∷ [])
two-IsRing =
    dlist_insert_before-IsRing (dlist_insert_before empty_list 0 1) 0 (1 ∷ []) 2 one-IsRing
      (omega arith)

dlist_detach-IsRing_example : IsRing (dlist_detach two_links 1) 0 (2 ∷ [])
dlist_detach-IsRing_example = dlist_detach-IsRing two_links 0 [] 1 (2 ∷ []) two-IsRing

-- A server without connections, whose other state is a number.
abbrev new_server : Server ℕ
new_server = record { fd2conn = []; clients = λ p. none; links = empty_list; fresh = 1; rest = 0 }

no_slot : (fd p : ℕ) → get_or {A = Option ℕ} [] fd none ≡ some p → ⊥
no_slot fd p e = not_none e

new_server-IsServer : IsServer new_server []
new_server-IsServer = record {
  ring = empty_list-IsRing;
  known = λ p h. absurd (omega (arith, h));
  only = λ p c e. absurd (not_none e);
  table = λ fd p e. absurd (no_slot fd p e);
  below = λ p c e. absurd (not_none e);
  started = omega arith;
}

accept_turn-Accepted_example :
    Returns (Accepted 0 100 3 new_server []) (accept_turn 100 (some 3) new_server)
accept_turn-Accepted_example =
    accept_turn-Accepted 0 0 100 3 new_server [] new_server-IsServer (omega arith) (omega arith)
      refl

-- One connection, active at 100.
abbrev one_client : Server ℕ
one_client = record {
  fd2conn = some 1 ∷ [];
  clients =
      store (λ p. none) 1 (some (record { fd = 0; last_active_ms = 100; conn = accepted_conn }));
  links = dlist_insert_before empty_list 0 1;
  fresh = 2;
  rest = 0;
}

one_client-IsServer : IsServer one_client (1 ∷ [])
one_client-IsServer = accepted-IsServer 100 0 new_server [] new_server-IsServer refl

one_client-IsAged : IsAged one_client.clients 0 (1 ∷ []) 6000
one_client-IsAged =
    (record { fd = 0; last_active_ms = 100; conn = accepted_conn }, refl, omega arith, omega arith)

conn_destroy-Destroyed_example : Returns (Destroyed one_client [] 1 []) (conn_destroy 1 one_client)
conn_destroy-Destroyed_example = conn_destroy-Destroyed one_client [] 1 [] one_client-IsServer

expire_idle-Idled_example :
    Returns
      (λ (s' : Server ℕ).
        (gone : List ℕ) × (left : List ℕ) × Idled 6000 one_client (1 ∷ []) gone left s')
      (expire_idle 2 6000 one_client)
expire_idle-Idled_example =
    expire_idle-Idled 2 0 6000 one_client (1 ∷ []) one_client-IsServer one_client-IsAged
      (omega arith) (omega arith)

abbrev one_timer : List HeapItem
one_timer = record { val = 6500; ref = 0 } ∷ []

one_timer-IsHeap : IsHeap one_timer
one_timer-IsHeap = λ c p q. absurd (omega arith)

next_timer_ms-IsSoonest_example :
    Returns
      (λ (t : ℕ). (d : ℕ) × IsSoonest one_client (1 ∷ []) one_timer d × IsWait 6000 d t)
      (next_timer_ms 6000 one_timer one_client)
next_timer_ms-IsSoonest_example =
    next_timer_ms-IsSoonest 0 6000 one_timer one_client (1 ∷ []) one_client-IsServer
      one_client-IsAged (omega arith) one_timer-IsHeap
