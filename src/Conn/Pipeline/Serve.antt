-- ===== src/Conn/Pipeline/Serve.antt =====
-- server.cpp: the request loop on a stream of whole requests.
use redis_lite.Base.{
  ltb, le→ltb, ◌⊎◌, ◌%◌, ◌^◌, ℕ, ◌+◌, ◌≤◌, ◌<◌, ◌≡◌, refl, ◌∙◌, true, false, List, [], ◌∷◌, ◌++◌,
  Option, some, ◌>>=◌, ap, sym, length, take, drop, length-append, take-append_left,
  drop-append_left, arith, inl, inr, lt→ltb,
}
use mathlib.Core.Path.{fun_ext}
use redis_lite.Bytes.{Str, le, of_le, of_le-le_four}
use redis_lite.Request.{k_max_args}
use redis_lite.Request.RoundTrip.{AreShort, request, parse_req-request}
use redis_lite.Reply.{k_max_msg}
use redis_lite.Conn.{Conn, DoRequest, answer, try_one_request, all_requests}
use redis_lite.Conn.Pipeline.{IsReady, consumed, bind_assoc, all-ready, all-idle}

-- A message behind its length.
abbrev pub framed : List ℕ → List ℕ
framed body = le 4 (length body) ++ body

-- A command that the protocol can carry.
pub record IsSendable (cmd : List Str) : Type 0 where
  pub few : length cmd ≤ k_max_args
  pub short : AreShort cmd
  pub fits : length (request cmd) ≤ k_max_msg

abbrev pub AreSendable : List (List Str) → Type 0
AreSendable [] = Unit
AreSendable (cmd ∷ cmds) = IsSendable cmd × AreSendable cmds

-- The bytes of the requests, one behind the other, and what follows.
abbrev pub stream : List (List Str) → List ℕ → List ℕ
stream [] rest = rest
stream (cmd ∷ cmds) rest = framed (request cmd) ++ stream cmds rest

-- Less than a header, or a header that the server accepts and less than its message.
abbrev pub IsPartial : List ℕ → Type 0
IsPartial rest =
    (length rest < 4)
    ⊎ ((4 ≤ length rest)
        × (of_le (take 4 rest) ≤ k_max_msg)
        × (length rest < 4 + of_le (take 4 rest)))

framed-IsReady :
    (c : Conn) (cmd : List Str) (rest : List ℕ)
    → IsSendable cmd
    → c.incoming ≡ framed (request cmd) ++ rest
    → IsReady c (length (request cmd)) cmd
framed-IsReady c cmd rest s e =
    let n = length (request cmd) in
    let all : 4 ≤ length (framed (request cmd) ++ rest) = omega arith in
    record {
      header = rw e all;
      size = rw e (of_le-le_four n (omega (arith, s.fits)));
      fits = s.fits;
      whole = rw e (omega (arith, length-append (request cmd) rest));
      parsed =
          rw e (rw (take-append_left (request cmd) rest) (parse_req-request cmd s.few s.short));
    }

framed-drop : (body rest : List ℕ) → drop (4 + length body) (framed body ++ rest) ≡ rest
framed-drop body rest =
    let e : 4 + length body ≡ length (framed body) = omega arith in
    rw e (drop-append_left (framed body) rest)

module _ {S : Type 0} (do_request : DoRequest S) where
  -- The commands one after the other, each in the state that those before it leave, up to a fault.
  abbrev pub serve : S → List (List Str) → List ℕ → Option (S × List ℕ)
  serve s [] out = some (s, out)
  serve s (cmd ∷ cmds) out = answer do_request s cmd out >>= λ r. serve r.0 cmds r.1

  -- A partial request is left alone.
  partial-idle :
      (c : Conn) (s : S) (rest : List ℕ)
      → c.incoming ≡ rest
      → IsPartial rest
      → try_one_request do_request c s ≡ some (false, c, s)
  unfolding try_one_request
  partial-idle c s rest e (inl short) =
      let h : ltb (length c.incoming) 4 ≡ true = lt→ltb _ _ (rw e short) in rw h refl
  partial-idle c s rest e (inr (full, fits, part)) =
      let len = of_le (take 4 c.incoming) in
      let mask : (4 + len) % 2 ^ 32 ≡ 4 + len = rw e (omega arith) in
      let h₁ : ltb (length c.incoming) 4 ≡ false = le→ltb _ _ (rw e full) in
      let h₂ : ltb k_max_msg len ≡ false = le→ltb _ _ (rw e fits) in
      let h₃ : ltb (length c.incoming) (4 + len) ≡ true = lt→ltb _ _ (rw e part) in
      rw (h₁, h₂, mask, h₃) refl

  pub all_requests-stream :
      (c : Conn) (s : S) (cmds : List (List Str)) (rest : List ℕ)
      → AreSendable cmds
      → c.incoming ≡ stream cmds rest
      → IsPartial rest
      → all_requests do_request c s ≡ (
          serve s cmds c.outgoing >>= λ r. some (record c { incoming = rest; outgoing = r.1 }, r.0))
  all_requests-stream c s [] rest ok e partial =
      all-idle do_request c c s (partial-idle c s rest e partial) ∙ rw (← e) refl
  all_requests-stream c s (cmd ∷ cmds) rest ok e partial =
      let n = length (request cmd) in
      let left : drop (4 + n) c.incoming ≡ stream cmds rest =
        rw e (framed-drop (request cmd) (stream cmds rest)) in
      all-ready do_request c s n cmd (framed-IsReady c cmd (stream cmds rest) ok.0 e)
      ∙ ap (λ k. answer do_request s cmd c.outgoing >>= k)
          (fun_ext (λ (q : S × List ℕ).
            all_requests-stream (consumed c n q.1) q.0 cmds rest ok.1 left partial))
      ∙ sym (bind_assoc (answer do_request s cmd c.outgoing) (λ q. serve q.0 cmds q.1) _)
