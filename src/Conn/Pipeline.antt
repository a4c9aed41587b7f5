-- ===== src/Conn/Pipeline.antt =====
-- `try_one_request` of server.cpp and the loop around it: the cases of one round.
pub mod Chunks
pub mod Serve
use redis_lite.Base.{
  ℕ, zero, suc, ◌+◌, ◌-◌, ◌%◌, ◌^◌, ◌≤◌, ◌<◌, ◌≡◌, ◌⊎◌, refl, ap, sym, ◌∙◌, Bool, true, false, List,
  [], ◌∷◌, ◌++◌, Option, none, some, ◌>>=◌, ltb, ◌==◌, if◌then◌else◌, length, take, drop,
  length-append, length-drop, length-take, take-append_le, drop-append_le, arith, lt→ltb, le→ltb,
  Bool-cases, Option-cases, inl, inr,
}
use mathlib.Core.Path.{fun_ext}
use redis_lite.Bytes.{Str, of_le}
use redis_lite.Request.{parse_req}
use redis_lite.Reply.{k_max_msg}
use redis_lite.Conn.{Conn, DoRequest, answer, process, try_one_request, request_loop, all_requests}

-- The buffer holds a whole request of `len` bytes, for `cmd`.
pub record IsReady (c : Conn) (len : ℕ) (cmd : List Str) : Type 0 where
  pub header : 4 ≤ length c.incoming
  pub size : of_le (take 4 c.incoming) ≡ len
  pub fits : len ≤ k_max_msg
  pub whole : 4 + len ≤ length c.incoming
  pub parsed : parse_req (take len (drop 4 c.incoming)) [] ≡ some cmd

-- The connection after a request of `len` bytes, with its response in the output.
abbrev pub consumed : Conn → ℕ → List ℕ → Conn
consumed c len out = record c { outgoing = out; incoming = drop (4 + len) c.incoming }

bind_assoc :
    {A B C : Type 0} (o : Option A) (f : A → Option B) (g : B → Option C)
    → ((o >>= f) >>= g) ≡ (o >>= λ a. f a >>= g)
bind_assoc none f g = refl
bind_assoc (some a) f g = refl

module _ {S : Type 0} (do_request : DoRequest S) where
  try_step :
      (c : Conn) (s : S) (len : ℕ)
      → 4 ≤ length c.incoming
      → of_le (take 4 c.incoming) ≡ len
      → len ≤ k_max_msg
      → 4 + len ≤ length c.incoming
      → try_one_request do_request c s ≡ process do_request c s len
  unfolding try_one_request
  try_step c s len h e f w =
      let mask : (4 + len) % 2 ^ 32 ≡ 4 + len = omega arith in
      rw
        (
          le→ltb (length c.incoming) 4 h,
          e,
          le→ltb k_max_msg len f,
          mask,
          le→ltb (length c.incoming) (4 + len) w,
        )
        refl

  -- A whole request is processed.
  pub try-ready :
      (c : Conn) (s : S) (len : ℕ) (cmd : List Str)
      → IsReady c len cmd
      → try_one_request do_request c s
        ≡ (answer do_request s cmd c.outgoing >>= λ r. some (true, consumed c len r.1, r.0))
  try-ready c s len cmd r =
      try_step c s len r.header r.size r.fits r.whole ∙ unfold process in ground (arith, r.parsed)

  -- Otherwise nothing is, and the connection is left as it is or marked for closing.
  abbrev pub IsIdle : Conn → S → Type 0
  IsIdle c s =
      (try_one_request do_request c s ≡ some (false, c, s))
      ⊎ (try_one_request do_request c s ≡ some (false, record c { want_close = true }, s))

  pub try-cases :
      (c : Conn) (s : S) → ((len : ℕ) × (cmd : List Str) × IsReady c len cmd) ⊎ IsIdle c s
  try-cases c s = elim (Bool-cases (ltb (length c.incoming) 4)) [
    | inl short ↦ inr (inl (unfold try_one_request in rw short refl))
    | inr enough ↦
        let len = of_le (take 4 c.incoming) in
        elim (Bool-cases (ltb k_max_msg len)) [
          | inl big ↦ inr (inr (unfold try_one_request in rw (enough, big) refl))
          | inr fits ↦
              let mask : (4 + len) % 2 ^ 32 ≡ 4 + len = ground arith in
              elim (Bool-cases (ltb (length c.incoming) (4 + len))) [
                | inl part ↦
                    inr (inl (unfold try_one_request in rw (enough, fits, mask, part) refl))
                | inr whole ↦
                    let step = try_step c s len (ground arith) refl (ground arith) (ground arith) in
                    elim (Option-cases (parse_req (take len (drop 4 c.incoming)) [])) [
                      | inl bad ↦ inr (inr (step ∙ unfold process in rw (bad, process) refl))
                      | inr (cmd, good) ↦ inl (
                        len,
                        cmd,
                        record {
                          header = ground arith;
                          size = refl;
                          fits = ground arith;
                          whole = ground arith;
                          parsed = good;
                        },
                      )
                    ]
              ]
        ]
  ]

  -- The rest of the loop, by the result of one round.
  abbrev resume : ℕ → Option (Bool × Conn × S) → Option (Conn × S)
  resume f o =
      o >>= λ r. elim r.0 [ true ↦ request_loop do_request f r.1 r.2 | false ↦ some (r.1, r.2) ]

  loop_ready :
      (f : ℕ) (c : Conn) (s : S) (len : ℕ) (cmd : List Str)
      → IsReady c len cmd
      → request_loop do_request (suc f) c s ≡ (
          answer do_request s cmd c.outgoing >>= λ q.
          request_loop do_request f (consumed c len q.1) q.0)
  unfolding request_loop
  loop_ready f c s len cmd r =
      ap (resume f) (try-ready c s len cmd r)
      ∙ bind_assoc (answer do_request s cmd c.outgoing) (λ q. some (true, consumed c len q.1, q.0))
          _

  loop_idle :
      (f : ℕ) (c c' : Conn) (s : S)
      → try_one_request do_request c s ≡ some (false, c', s)
      → request_loop do_request (suc f) c s ≡ some (c', s)
  unfolding request_loop
  loop_idle f c c' s e = ap (resume f) e

  -- The loop ends, and more fuel than there are bytes makes no difference.
  pub loop_fuel :
      (f g : ℕ) (c : Conn) (s : S)
      → length c.incoming < f
      → length c.incoming < g
      → request_loop do_request f c s ≡ request_loop do_request g c s
  loop_fuel zero g c s p q = absurd (omega arith)
  loop_fuel (suc f) zero c s p q = absurd (omega arith)
  loop_fuel (suc f) (suc g) c s p q = elim (try-cases c s) [
    | inl (len, cmd, r) ↦
        let short = length-drop (4 + len) c.incoming in
        loop_ready f c s len cmd r
        ∙ ap (λ k. answer do_request s cmd c.outgoing >>= k)
            (fun_ext (λ (a : S × List ℕ).
              loop_fuel f g (consumed c len a.1) a.0 (omega (arith, r.whole, short))
                (omega (arith, r.whole, short))))
        ∙ sym (loop_ready g c s len cmd r)
    | inr (inl e) ↦ loop_idle f c c s e ∙ sym (loop_idle g c c s e)
    | inr (inr e) ↦ loop_idle f c _ s e ∙ sym (loop_idle g c _ s e)
  ]

  pub all-ready :
      (c : Conn) (s : S) (len : ℕ) (cmd : List Str)
      → IsReady c len cmd
      → all_requests do_request c s ≡ (
          answer do_request s cmd c.outgoing >>= λ q.
          all_requests do_request (consumed c len q.1) q.0)
  unfolding all_requests
  all-ready c s len cmd r =
      let short = length-drop (4 + len) c.incoming in
      loop_ready (length c.incoming) c s len cmd r
      ∙ ap (λ k. answer do_request s cmd c.outgoing >>= k)
          (fun_ext (λ (a : S × List ℕ).
            loop_fuel (length c.incoming) (suc (length (drop (4 + len) c.incoming)))
              (consumed c len a.1) a.0 (omega (arith, r.whole, short)) (omega arith)))

  pub all-idle :
      (c c' : Conn) (s : S)
      → try_one_request do_request c s ≡ some (false, c', s)
      → all_requests do_request c s ≡ some (c', s)
  unfolding all_requests
  all-idle c c' s e = loop_idle (length c.incoming) c c' s e
