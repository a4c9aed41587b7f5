-- ===== src/Conn/Events.antt =====
-- The flags of a connection of server.cpp, in `handle_read` and `handle_write`.
use redis_lite.Base.{
  ℕ, zero, suc, ◌≤◌, ◌≡◌, refl, ap, sym, ◌∙◌, Bool, true, false, List, length, drop, length-drop,
  ◌+◌, ◌++◌, arith, ◌==◌, Bool-cases, inl, inr, Returns, ◌⊎◌, Option-cases, none, some, ◌>>=◌,
}
use mathlib.Core.Bool.{not}
use redis_lite.Bytes.{Str}
use redis_lite.Reply.{response_begin, response_end}
use redis_lite.Conn.{
  Conn, DoRequest, answer, all_requests, WriteResult, ReadResult, handle_write, handle_read,
  respond,
}
use redis_lite.Conn.Pipeline.{IsReady, consumed, try-cases, all-ready, all-idle}

-- The server reads exactly when it has nothing to write.
pub record IsSteady (c : Conn) : Type 0 where
  pub reads : c.want_read ≡ (length c.outgoing == 0)
  pub writes : c.want_write ≡ not c.want_read

-- With something to write, `handle_write` keeps its assertion.
write-IsSteady :
    (c : Conn) (w : WriteResult)
    → (length c.outgoing == 0) ≡ false
    → c.want_read ≡ false
    → c.want_write ≡ true
    → Returns IsSteady (handle_write c w)
unfolding handle_write
write-IsSteady c WriteResult.again e r w =
    rw e (_, refl, record { reads = rw (r, e) refl; writes = rw (r, w) refl })
write-IsSteady c WriteResult.failed e r w =
    rw e (_, refl, record { reads = rw (r, e) refl; writes = rw (r, w) refl })
write-IsSteady c (WriteResult.wrote n) e r w =
    rw e (elim (Bool-cases (length (drop n c.outgoing) == 0)) [
      | inl done ↦ rw done (_, refl, record { reads = rw done refl; writes = refl })
      | inr more ↦ rw more (_, refl, record { reads = rw (r, more) refl; writes = rw (r, w) refl })
    ])

not-not : (b : Bool) → not b ≡ true → b ≡ false
not-not true e = cc
not-not false e = refl

-- When the socket of a steady connection is writable, as it was asked to be, `handle_write` does
-- not fail its assertion, whatever `write` returns, and the connection stays steady.
pub handle_write-IsSteady :
    (c : Conn) (w : WriteResult)
    → IsSteady c
    → c.want_write ≡ true
    → Returns IsSteady (handle_write c w)
handle_write-IsSteady c w v e =
    let r = not-not c.want_read (sym v.writes ∙ e) in write-IsSteady c w (sym v.reads ∙ r) r e

some_fault : {A : Type 0} {a : A} → some a ≡ none → ⊥
some_fault e = cc

module _ {S : Type 0} (do_request : DoRequest S) where
  -- `do_request` faults on a command that the loop comes to: on that of the request in front, or on one
  -- behind requests that are answered.
  pub data IsFault : Conn → S → Type 0 where
    at_once :
        {c : Conn} {s : S} {len : ℕ} {cmd : List Str}
        → IsReady c len cmd
        → do_request s cmd (response_begin c.outgoing).0 ≡ none
        → IsFault c s
    behind :
        {c : Conn} {s s' : S} {len : ℕ} {cmd : List Str} {out : List ℕ}
        → IsReady c len cmd
        → answer do_request s cmd c.outgoing ≡ some (s', out)
        → IsFault (consumed c len out) s'
        → IsFault c s

  -- Processing requests leaves the two flags alone.
  abbrev KeepsFlags : Conn → Conn × S → Type 0
  KeepsFlags c r = (r.0.want_read ≡ c.want_read) × (r.0.want_write ≡ c.want_write)

  abbrev Ends : Conn → S → Type 0
  Ends c s =
      (IsFault c s × (all_requests do_request c s ≡ none))
      ⊎ Returns (KeepsFlags c) (all_requests do_request c s)

  answer_fault :
      (s : S) (cmd : List Str) (out : List ℕ)
      → answer do_request s cmd out ≡ none
      → do_request s cmd (response_begin out).0 ≡ none
  unfolding answer
  answer_fault s cmd out e = elim (Option-cases (do_request s cmd (response_begin out).0)) [
    | inl fault ↦ fault
    | inr (r, done) ↦ absurd (
        some_fault
          (sym (ap (λ o. o >>= λ q. some (q.0, response_end q.1 (response_begin out).1)) done) ∙ e))
  ]

  Ends-idle :
      (c : Conn) (s : S) → ((len : ℕ) (cmd : List Str) → IsReady c len cmd → Ends c s) → Ends c s
  Ends-idle c s busy = elim (try-cases do_request c s) [
    | inl (len, cmd, r) ↦ busy len cmd r
    | inr (inl i) ↦ inr (_, all-idle do_request c c s i, (refl, refl))
    | inr (inr i) ↦ inr (_, all-idle do_request c _ s i, (refl, refl))
  ]

  all_requests-Ends : (n : ℕ) (c : Conn) (s : S) → length c.incoming ≤ n → Ends c s
  all_requests-Ends zero c s h = Ends-idle c s λ len cmd r. absurd (omega (arith, r.header))
  all_requests-Ends (suc n) c s h = Ends-idle c s λ len cmd r.
      let short = length-drop (4 + len) c.incoming in
      let go = all-ready do_request c s len cmd r in
      elim (Option-cases (answer do_request s cmd c.outgoing)) [
        | inl fault ↦ inl (
          at_once r (answer_fault s cmd c.outgoing fault),
          go ∙ ap (λ o. o >>= λ q. all_requests do_request (consumed c len q.1) q.0) fault,
        )
        | inr ((s', out), done) ↦
            let run =
              go ∙ ap (λ o. o >>= λ q. all_requests do_request (consumed c len q.1) q.0) done in
            elim (all_requests-Ends n (consumed c len out) s' (omega (arith, r.whole, short))) [
              | inl (fault, e) ↦ inl (behind r done fault, run ∙ e)
              | inr (res, e, flags) ↦ inr (res, run ∙ e, flags)
            ]
      ]

  respond-IsSteady :
      (c : Conn) (s : S) (w : WriteResult)
      → c.want_read ≡ true
      → c.want_write ≡ false
      → Returns (λ (r : Conn × S). IsSteady r.0) (respond do_request c s w)
  unfolding respond
  respond-IsSteady c s w r e = elim (Bool-cases (length c.outgoing == 0)) [
    | inl none_yet ↦
        rw none_yet (_, refl, record { reads = rw (r, none_yet) refl; writes = rw (r, e) refl })
    | inr some_yet ↦
        let (c', run, v) =
          write-IsSteady (record c { want_read = false; want_write = true }) w some_yet refl refl in
        rw (some_yet, run) (_, refl, v)
  ]

  -- When the socket of a steady connection is readable, as it was asked to be, `handle_read` ends and
  -- fails no assertion of its own, whatever `read` and `write` return and whatever the bytes are, and
  -- the connection stays steady, unless `do_request` itself faults on a command among those bytes that
  -- the loop comes to.
  pub handle_read-IsSteady :
      (c : Conn) (s : S) (r : ReadResult) (w : WriteResult)
      → IsSteady c
      → c.want_read ≡ true
      → ((bytes : List ℕ) × (r ≡ ReadResult.got bytes)
          × IsFault (record c { incoming = c.incoming ++ bytes }) s
          × (handle_read do_request c s r w ≡ none))
        ⊎ Returns (λ (r : Conn × S). IsSteady r.0) (handle_read do_request c s r w)
  unfolding handle_read
  handle_read-IsSteady c s ReadResult.again w v e = inr (_, refl, v)
  handle_read-IsSteady c s ReadResult.failed w v e =
      inr (_, refl, record { reads = v.reads; writes = v.writes })
  handle_read-IsSteady c s ReadResult.eof w v e =
      inr (_, refl, record { reads = v.reads; writes = v.writes })
  handle_read-IsSteady c s (ReadResult.got bytes) w v e =
      let fed = record c { incoming = c.incoming ++ bytes } in
      elim (all_requests-Ends (length fed.incoming) fed s (omega arith)) [
        | inl (fault, run) ↦ inl (bytes, refl, fault, rw run refl)
        | inr ((c', s'), run, (r₁, r₂)) ↦
            let (res, go, v') = respond-IsSteady c' s' w (r₁ ∙ e) (r₂ ∙ v.writes ∙ ap not e) in
            inr (res, rw run go, v')
      ]
