-- ===== src/Tests/Conn.antt =====
-- server.cpp and client.cpp on the command `get k`, with the commands of server.cpp, and with
-- a server that answers each command by its first string.
use redis_lite.Base.{
  ℕ, suc, ◌≤◌, ◌≡◌, ◌↔◌, refl, Bool, true, false, List, [], ◌∷◌, ◌++◌, some, arith, length, Returns,
  inl, none, ◌⊎◌, ltb, ◌&&◌,
}
use redis_lite.Bytes.{Str, le, IsBytes}
use redis_lite.Request.{k_max_args, parse_req, request_body, send_req, client_max_msg}
use redis_lite.Request.RoundTrip.{AreShort, request, send_req-parse_req}
use redis_lite.Request.Exact.{parse_req-eq-some_iff}
use redis_lite.Reply.{response_begin, response_end, response_size}
use redis_lite.Reply.Framing.{response_end-framed}
use redis_lite.Db.{Db}
use redis_lite.ZSet.{ZSet}
use redis_lite.Dispatch.Request.{do_request}
use redis_lite.Tests.Dispatch.{reader, one_set}
use redis_lite.Conn.{
  Conn, DoRequest, answer, accepted_conn, all_requests, WriteResult, ReadResult, handle_write,
  handle_read,
}
use redis_lite.Conn.Pipeline.Chunks.{feed, all_requests-feed}
use redis_lite.Conn.Pipeline.Serve.{AreSendable, stream, all_requests-stream}
use redis_lite.Conn.Events.{IsFault, IsSteady, handle_write-IsSteady, handle_read-IsSteady}

abbrev get_k : List Str
get_k = (103 ∷ 101 ∷ 116 ∷ []) ∷ (107 ∷ []) ∷ []

-- The state is the number of commands.
abbrev echo_reply : List Str → List ℕ
echo_reply [] = []
echo_reply (name ∷ args) = name

abbrev echo : DoRequest ℕ
echo s cmd out = some (suc s, out ++ echo_reply cmd)

abbrev are_bytes : List ℕ → Bool
are_bytes [] = true
are_bytes (b ∷ bs) = ltb b 256 && are_bytes bs

are_bytes-IsBytes : (bs : List ℕ) → are_bytes bs ≡ true → IsBytes bs
are_bytes-IsBytes [] e = _
are_bytes-IsBytes (b ∷ bs) e = (ground (arith, e), are_bytes-IsBytes bs (ground (arith, e)))

get_k-IsBytes : IsBytes (request get_k)
unfolding request_body
get_k-IsBytes = are_bytes-IsBytes (request get_k) refl

parse_req-eq-some_iff_example :
    (parse_req (request get_k) [] ≡ some get_k)
    ↔ ((request get_k ≡ request get_k) × (2 ≤ k_max_args) × AreShort get_k)
parse_req-eq-some_iff_example = parse_req-eq-some_iff (request get_k) get_k get_k-IsBytes

send_req-parse_req_example :
    (le 4 (length (request get_k)) ++ request get_k ≡ le 4 16 ++ request get_k)
    × (length (request get_k) ≤ client_max_msg)
    × (parse_req (request get_k) [] ≡ some get_k)
unfolding send_req
send_req-parse_req_example = send_req-parse_req get_k (le 4 16 ++ request get_k) refl

response_end-framed_example :
    response_end ((response_begin (9 ∷ [])).0 ++ (0 ∷ [])) (response_begin (9 ∷ [])).1
    ≡ 9 ∷ 1 ∷ 0 ∷ 0 ∷ 0 ∷ 0 ∷ []
response_end-framed_example = response_end-framed (9 ∷ []) (0 ∷ [])

-- A whole request and two bytes of the next one.
abbrev one_and_a_bit : Conn
one_and_a_bit = record accepted_conn { incoming = stream (get_k ∷ []) (16 ∷ 0 ∷ []) }

get_k-AreSendable : AreSendable (get_k ∷ [])
unfolding request_body
get_k-AreSendable =
    (record { few = omega arith; short = (omega arith, (omega arith, _)); fits = omega arith }, _)

abbrev commands : DoRequest (Db ZSet)
commands = do_request reader 120

-- The echo's connection after that.
abbrev waiting : Conn
waiting = record one_and_a_bit {
  incoming = 16 ∷ 0 ∷ [];
  outgoing = 3 ∷ 0 ∷ 0 ∷ 0 ∷ 103 ∷ 101 ∷ 116 ∷ [];
}

one_echo : all_requests echo one_and_a_bit 0 ≡ some (waiting, 1)
unfolding answer response_begin response_end response_size
one_echo =
    all_requests-stream echo one_and_a_bit 0 (get_k ∷ []) (16 ∷ 0 ∷ []) get_k-AreSendable refl
      (inl (omega arith))

all_requests-feed_example :
    all_requests echo (feed (0 ∷ 0 ∷ []) one_and_a_bit) 0
    ≡ all_requests echo (feed (0 ∷ 0 ∷ []) waiting) 1
all_requests-feed_example =
    all_requests-feed echo (0 ∷ 0 ∷ []) one_and_a_bit waiting 0 1 one_echo refl

accepted_conn-IsSteady : IsSteady accepted_conn
accepted_conn-IsSteady = record { reads = refl; writes = refl }

handle_read-IsSteady_example :
    ((bytes : List ℕ) × (ReadResult.got one_and_a_bit.incoming ≡ ReadResult.got bytes)
      × IsFault commands (record accepted_conn { incoming = bytes }) one_set
      × (handle_read commands accepted_conn one_set
            (ReadResult.got one_and_a_bit.incoming)
            (WriteResult.wrote 3)
          ≡ none))
    ⊎ Returns
        (λ (r : Conn × Db ZSet). IsSteady r.0)
        (handle_read commands accepted_conn one_set
          (ReadResult.got one_and_a_bit.incoming)
          (WriteResult.wrote 3))
handle_read-IsSteady_example =
    handle_read-IsSteady commands accepted_conn one_set (ReadResult.got one_and_a_bit.incoming)
      (WriteResult.wrote 3) accepted_conn-IsSteady refl

abbrev writing : Conn
writing = record accepted_conn { want_read = false; want_write = true; outgoing = 1 ∷ 2 ∷ [] }

handle_write-IsSteady_example : Returns IsSteady (handle_write writing (WriteResult.wrote 2))
handle_write-IsSteady_example =
    handle_write-IsSteady writing (WriteResult.wrote 2) (record { reads = refl; writes = refl })
      refl
