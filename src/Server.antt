-- ===== src/Server.antt =====
-- The state that server.cpp keeps on its connections, with the timers of `main`'s loop. A connection's
-- address stands for its `idle_node` too. `S` is the rest of `g_data`; `none` is a fault.
pub mod Valid
pub mod Idle
pub mod Accept
pub mod Timers
use redis_lite.Base.{
  ℕ, zero, suc, ◌+◌, ◌-◌, ◌%◌, ◌^◌, ◌≤◌, Bool, true, false, List, [], ◌∷◌, ◌++◌, Option, none, some,
  ◌>>=◌, ltb, leb, ◌==◌, if◌then◌else◌, length, get_elem?, set, replicate,
}
use redis_lite.Base.Memory.{store}
use redis_lite.DList.{DList, dlist_empty, dlist_detach, dlist_insert_before}
use redis_lite.Heap.{HeapItem}
use redis_lite.Conn.{Conn, accepted_conn}

-- The other fields of `Conn`, around those that the handlers of its socket use.
pub record Client : Type 0 where
  pub fd : ℕ
  pub last_active_ms : ℕ
  pub conn : Conn

-- `fd2conn`, the allocated connections, the pointers of the idle list, and the next address that
-- `new` gives.
pub record Server (S : Type 0) : Type 0 where
  pub fd2conn : List (Option ℕ)
  pub clients : ℕ → Option Client
  pub links : DList
  pub fresh : ℕ
  pub rest : S

-- `&g_data.idle_list`
abbrev pub idle_list : ℕ
idle_list = 0

abbrev pub k_idle_timeout_ms : ℕ
k_idle_timeout_ms = 5000

-- The deadline of a connection, in 64 bits.
abbrev pub idle_deadline : Client → ℕ
idle_deadline c = (c.last_active_ms + k_idle_timeout_ms) % 2 ^ 64

-- The first timer, if it is sooner.
abbrev pub sooner : ℕ → List HeapItem → ℕ
sooner next_ms [] = next_ms
sooner next_ms (t ∷ _) = if ltb t.val next_ms then t.val else next_ms

-- The 32 bits that `poll` gets: -1, 0 or the time that is left.
unfoldable pub wait_ms : ℕ → ℕ → ℕ
wait_ms now next_ms =
    if next_ms == 2 ^ 64 - 1
    then 2 ^ 32 - 1
    else (if leb next_ms now then 0 else (next_ms - now) % 2 ^ 32)

-- `fd2conn`, made long enough.
abbrev pub resized : List (Option ℕ) → ℕ → List (Option ℕ)
resized table fd =
    if leb (length table) fd then table ++ replicate (fd + 1 - length table) none else table

-- The assertion that the slot is free.
abbrev pub put_conn : List (Option ℕ) → ℕ → ℕ → Option (Option ℕ) → Option (List (Option ℕ))
put_conn table fd p (some none) = some (set table fd (some p))
put_conn table fd p _ = none

module _ {S : Type 0} where
  -- The part of `handle_accept` after `accept` gave a descriptor.
  unfoldable pub add_client : ℕ → ℕ → Server S → ℕ × Server S
  add_client now connfd s =
      let p = s.fresh in
      let c : Client = record { fd = connfd; last_active_ms = now; conn = accepted_conn } in
      (
        p,
        record s {
          clients = store s.clients p (some c);
          links = dlist_insert_before s.links idle_list p;
          fresh = p + 1;
        },
      )

  -- `none` from `accept` is an error.
  unfoldable pub handle_accept : ℕ → Option ℕ → Server S → Option ℕ × Server S
  handle_accept now none s = (none, s)
  handle_accept now (some connfd) s = let (p, s') = add_client now connfd s in (some p, s')

  unfoldable pub register : ℕ → Server S → Option (Server S)
  register p s = s.clients p >>= λ c.
      let table = resized s.fd2conn c.fd in
      put_conn table c.fd p (get_elem? table c.fd) >>= λ table'.
      some (record s { fd2conn = table' })

  -- The turn of `main` at the listening socket.
  unfoldable pub accept_turn : ℕ → Option ℕ → Server S → Option (Server S)
  accept_turn now result s =
      let (o, s') = handle_accept now result s in elim o [ none ↦ some s' | some p ↦ register p s' ]

  unfoldable pub conn_destroy : ℕ → Server S → Option (Server S)
  conn_destroy p s = s.clients p >>= λ c. get_elem? s.fd2conn c.fd >>= λ slot. some (record s {
    fd2conn = set s.fd2conn c.fd none;
    links = dlist_detach s.links p;
    clients = store s.clients p none;
  })

  -- One turn of the first loop of `process_timers`, by whether the idle list is empty.
  unfoldable pub idle_turn :
      (Server S → Option (Server S)) → ℕ → Server S → Bool → Option (Server S)
  idle_turn loop now s true = some s
  idle_turn loop now s false =
      let p = s.links.next idle_list in
      s.clients p >>= λ c.
      if ltb now (idle_deadline c) then some s else (conn_destroy p s >>= λ s'. loop s')

  unfoldable pub expire_idle : ℕ → ℕ → Server S → Option (Server S)
  expire_idle zero now s = none
  expire_idle (suc fuel) now s =
      idle_turn (expire_idle fuel now) now s (dlist_empty s.links idle_list)

  -- The soonest deadline of a connection, that of the first in the list.
  unfoldable pub first_deadline : Server S → Option ℕ
  first_deadline s =
      if dlist_empty s.links idle_list
      then some (2 ^ 64 - 1)
      else (s.clients (s.links.next idle_list) >>= λ c. some (idle_deadline c))

  unfoldable pub next_timer_ms : ℕ → List HeapItem → Server S → Option ℕ
  next_timer_ms now heap s =
      first_deadline s >>= λ next_ms. some (wait_ms now (sooner next_ms heap))
