-- ===== src/Conn/Pipeline/Chunks.antt =====
-- server.cpp: the request loop on a stream that arrives in pieces.
use redis_lite.Base.{
  ℕ, zero, suc, ◌+◌, ◌≤◌, ◌≡◌, refl, ap, sym, ◌∙◌, true, false, List, ◌++◌, Option, none, some,
  ◌>>=◌, Option-cases, length, drop, length-append, length-drop, take-append_le, drop-append_le,
  arith, inl, inr,
}
use redis_lite.Bytes.{Str}
use redis_lite.Conn.{Conn, DoRequest, answer, all_requests}
use redis_lite.Conn.Pipeline.{IsReady, consumed, try-cases, all-ready, all-idle}

-- The connection with more bytes behind what it has read.
abbrev pub feed : List ℕ → Conn → Conn
feed b c = record c { incoming = c.incoming ++ b }

feed-IsReady :
    (b : List ℕ) (c : Conn) (len : ℕ) (cmd : List Str)
    → IsReady c len cmd
    → IsReady (feed b c) len cmd
feed-IsReady b c len cmd r =
    let head = take-append_le 4 c.incoming b r.header in
    let tail = drop-append_le 4 c.incoming b r.header in
    let body =
      take-append_le len (drop 4 c.incoming) b (omega (arith, length-drop 4 c.incoming, r.whole)) in
    record {
      header = omega (arith, length-append c.incoming b, r.header);
      size = rw head r.size;
      fits = r.fits;
      whole = omega (arith, length-append c.incoming b, r.whole);
      parsed = rw (tail, body) r.parsed;
    }

some_pair :
    {A B : Type 0} (a a' : A) (b b' : B)
    → ◌≡◌ {A = Option (A × B)} (some (a, b)) (some (a', b'))
    → (a ≡ a') × (b ≡ b')
some_pair a a' b b' e = (cc, cc)

not_some : {A : Type 0} {a : A} → none ≡ some a → ⊥
not_some e = cc

module _ {S : Type 0} (do_request : DoRequest S) (b : List ℕ) where
  all-feed_idle :
      (c c₁ : Conn) (s s₁ : S)
      → all_requests do_request c s ≡ some (c₁, s₁)
      → c₁.want_close ≡ false
      → ((len : ℕ) (cmd : List Str)
          → IsReady c len cmd
          → all_requests do_request (feed b c) s ≡ all_requests do_request (feed b c₁) s₁)
      → all_requests do_request (feed b c) s ≡ all_requests do_request (feed b c₁) s₁
  all-feed_idle c c₁ s s₁ e stays busy = elim (try-cases do_request c s) [
    | inl (len, cmd, r) ↦ busy len cmd r
    | inr (inl i) ↦
        let (p, q) = some_pair c c₁ s s₁ (sym (all-idle do_request c c s i) ∙ e) in rw (p, q) refl
    | inr (inr i) ↦
        let (p, q) = some_pair _ c₁ s s₁ (sym (all-idle do_request c _ s i) ∙ e) in
        let close : c₁.want_close ≡ true = ap (λ (c : Conn). c.want_close) (sym p) in cc
  ]

  all-feed_below :
      (n : ℕ) (c c₁ : Conn) (s s₁ : S)
      → length c.incoming ≤ n
      → all_requests do_request c s ≡ some (c₁, s₁)
      → c₁.want_close ≡ false
      → all_requests do_request (feed b c) s ≡ all_requests do_request (feed b c₁) s₁
  all-feed_below zero c c₁ s s₁ h e stays =
      all-feed_idle c c₁ s s₁ e stays λ len cmd r. absurd (omega (arith, r.header))
  all-feed_below (suc n) c c₁ s s₁ h e stays = all-feed_idle c c₁ s s₁ e stays λ len cmd r.
      let short = length-drop (4 + len) c.incoming in
      let run = sym (all-ready do_request c s len cmd r) ∙ e in
      let go = all-ready do_request (feed b c) s len cmd (feed-IsReady b c len cmd r) in
      elim (Option-cases (answer do_request s cmd c.outgoing)) [
        | inl fault ↦ absurd (
            not_some (
              sym (ap (λ o. o >>= λ q. all_requests do_request (consumed c len q.1) q.0) fault)
              ∙ run))
        | inr ((s', out), done) ↦
            go
            ∙ ap (λ o. o >>= λ q. all_requests do_request (consumed (feed b c) len q.1) q.0) done
            ∙ rw (drop-append_le (4 + len) c.incoming b r.whole) (
                all-feed_below n (consumed c len out) c₁ s' s₁ (omega (arith, r.whole, short))
                  (sym (ap (λ o. o >>= λ q. all_requests do_request (consumed c len q.1) q.0) done)
                    ∙ run)
                  stays)
      ]

  -- Bytes that arrive later are processed as if they had been there from the start: if the
  -- requests read so far leave the connection open, then going on with `b` gives what reading
  -- everything at once gives, in the same state and with the same output.
  pub all_requests-feed :
      (c c₁ : Conn) (s s₁ : S)
      → all_requests do_request c s ≡ some (c₁, s₁)
      → c₁.want_close ≡ false
      → all_requests do_request (feed b c) s ≡ all_requests do_request (feed b c₁) s₁
  all_requests-feed c c₁ s s₁ e stays =
      all-feed_below (length c.incoming) c c₁ s s₁ (omega arith) e stays
