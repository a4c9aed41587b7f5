-- ===== src/Conn.antt =====
-- One connection of server.cpp: its buffers, its flags, and the handlers of its socket events.
-- Time, the descriptor and the idle list are kept outside of it. `none` is a fault of a command, a
-- failed assertion or exhausted fuel.
pub mod Pipeline
pub mod Events
use redis_lite.Base.{
  ℕ, zero, suc, ◌+◌, ◌%◌, ◌^◌, Bool, true, false, List, Option, none, some, ◌>>=◌, ltb, ◌==◌,
  if◌then◌else◌, length, take, drop,
}
use redis_lite.Bytes.{Str, le, of_le, buf_append, buf_consume}
use redis_lite.Request.{parse_req}
use redis_lite.Reply.{k_max_msg, response_begin, response_end}

pub record Conn : Type 0 where
  pub want_read : Bool
  pub want_write : Bool
  pub want_close : Bool
  pub incoming : List ℕ
  pub outgoing : List ℕ

-- The fields as `handle_accept` leaves them.
abbrev pub accepted_conn : Conn
accepted_conn = record {
  want_read = true;
  want_write = false;
  want_close = false;
  incoming = List.[];
  outgoing = List.[];
}

-- `do_request` on the database `S`: from a command and the output buffer, the new state and buffer,
-- or a fault.
abbrev pub DoRequest : Type 0 → Type 0
DoRequest S = S → List Str → List ℕ → Option (S × List ℕ)

module _ {S : Type 0} (do_request : DoRequest S) where
  -- The application logic of one command, between the two halves of the response.
  unfoldable pub answer : S → List Str → List ℕ → Option (S × List ℕ)
  answer s cmd out =
      let (out₁, header) = response_begin out in
      do_request s cmd out₁ >>= λ (s', out₂). some (s', response_end out₂ header)

  -- The part behind the check of the body's size.
  unfoldable pub process : Conn → S → ℕ → Option (Bool × Conn × S)
  process c s len = elim (parse_req (take len (drop 4 c.incoming)) List.[]) [
    | none ↦ some (false, record c { want_close = true }, s)
    | some cmd ↦ answer s cmd c.outgoing >>= λ (s', out).
        some (true, record c { outgoing = out; incoming = buf_consume c.incoming (4 + len) }, s')
  ]

  -- `true` if a request was processed.
  unfoldable pub try_one_request : Conn → S → Option (Bool × Conn × S)
  try_one_request c s =
      if ltb (length c.incoming) 4
      then some (false, c, s)
      else (let len = of_le (take 4 c.incoming) in
          if ltb k_max_msg len
          then some (false, record c { want_close = true }, s)
          else if ltb (length c.incoming) ((4 + len) % 2 ^ 32)
          then some (false, c, s)
          else process c s len)

  -- `while (try_one_request(conn)) {}`, on fuel.
  unfoldable pub request_loop : ℕ → Conn → S → Option (Conn × S)
  request_loop zero c s = none
  request_loop (suc fuel) c s = try_one_request c s >>= λ (more, c', s'). elim more [
    | true ↦ request_loop fuel c' s'
    | false ↦ some (c', s')
  ]

  -- Each processed request takes 4 bytes at least.
  unfoldable pub all_requests : Conn → S → Option (Conn × S)
  all_requests c s = request_loop (suc (length c.incoming)) c s

-- What `write` returns: EAGAIN, another error, or the count of bytes taken.
pub data WriteResult : Type 0 where
  again failed : WriteResult
  wrote : ℕ → WriteResult

-- `none` is the failed assertion that there is something to write.
unfoldable pub handle_write : Conn → WriteResult → Option Conn
handle_write c r = if length c.outgoing == 0 then none else elim r [
  | again ↦ some c
  | failed ↦ some (record c { want_close = true })
  | wrote n ↦
      let out = buf_consume c.outgoing n in
      some (
        if length out == 0
        then record c { outgoing = out; want_read = true; want_write = false }
        else record c { outgoing = out })
]

-- What `read` returns: EAGAIN, another error, the end of the stream, or bytes.
pub data ReadResult : Type 0 where
  again failed eof : ReadResult
  got : List ℕ → ReadResult

module _ {S : Type 0} (do_request : DoRequest S) where
  -- The last part: with a response, the socket is written at once.
  unfoldable pub respond : Conn → S → WriteResult → Option (Conn × S)
  respond c s w =
      if length c.outgoing == 0
      then some (c, s)
      else (handle_write (record c { want_read = false; want_write = true }) w >>= λ c'.
          some (c', s))

  -- The second result is that of the write, should there be one.
  unfoldable pub handle_read : Conn → S → ReadResult → WriteResult → Option (Conn × S)
  handle_read c s r w = elim r [
    | again ↦ some (c, s)
    | failed ↦ some (record c { want_close = true }, s)
    | eof ↦ some (record c { want_close = true }, s)
    | got bytes ↦
        all_requests do_request (record c { incoming = buf_append c.incoming bytes }) s
        >>= λ (c', s'). respond c' s' w
  ]
