-- ===== src/Serial/Frames.antt =====
-- Frames: what `read_framed_packet` takes from the port, and that the loop over the packets ends.
use odp_platform_common.Common.{
  ℕ, zero, suc, ◌+◌, ◌≤◌, ◌<◌, true, false, List, [], ◌∷◌, ◌++◌, length, length-append, ◌==◌, ◌≡◌,
  ◌↔◌, refl, sym, ap, subst, ◌∙◌, arith, append_assoc, ==_iff, Bool-cases, Option-cases, inl, inr,
}
use odp_platform_common.Common.Result.{Result, ok, err, map_err}
use odp_platform_common.Common.Action.{
  Action, continue_with, continue_with-ok, Ends, ended, failed, Ends-ok, Ends-mono, Ends-bind,
}
use odp_platform_common.Text.Search.{Lacks}
use odp_platform_common.Text.{all_chars}
use odp_platform_common.Serial.Port.{Error, Port, Mctp, Relay, Fault, reported, out_of_fuel}
use odp_platform_common.Serial.Send.{
  accept, Destination, serial_end_flag, buffer_sz, read_rest, read_framed_packet, receive, transmit,
  exchange, send,
}

module _ (P : Port) where
  open P use {St, read_byte}

  -- The port delivers these bytes, one read each.
  pub data Reads : St → List ℕ → St → Type 0 where
    idle : {s : St} → Reads s [] s
    byte :
        {s t u : St} {b : ℕ} {bs : List ℕ}
        → read_byte s ≡ (t, ok b)
        → Reads t bs u
        → Reads s (b ∷ bs) u

  -- A frame: no end flag but the last byte.
  pub record Frame (frame : List ℕ) : Type 0 where
    pub body : List ℕ
    pub whole : frame ≡ body ++ serial_end_flag ∷ []
    pub stuffed : Lacks (λ b. b == serial_end_flag) body

  abbrev Framed : ℕ → List ℕ → St → St → List ℕ → Type 0
  Framed room filled s t frame =
      (rest : List ℕ) × (frame ≡ filled ++ rest)
      × Frame rest
      × (length rest ≤ room)
      × Reads s rest t

  Frame-end : (b : ℕ) → (b == serial_end_flag) ≡ true → Frame (b ∷ [])
  unfolding all_chars
  Frame-end b ends = record {
    body = [];
    whole = ap (λ c. c ∷ []) ((==_iff b serial_end_flag).0 ends);
    stuffed = refl;
  }

  Frame-cons :
      {b : ℕ} {rest : List ℕ} → (b == serial_end_flag) ≡ false → Frame rest → Frame (b ∷ rest)
  unfolding all_chars
  Frame-cons {b} goes f = record {
    body = b ∷ f.body;
    whole = ap (◌∷◌ b) f.whole;
    stuffed = rw goes f.stuffed;
  }

  Framed-cons :
      (room : ℕ) (filled : List ℕ) {s t u : St} {b : ℕ} {frame : List ℕ}
      → read_byte s ≡ (t, ok b)
      → (b == serial_end_flag) ≡ false
      → Framed room (filled ++ b ∷ []) t u frame
      → Framed (suc room) filled s u frame
  Framed-cons room filled {b = b} got goes (rest, e, f, fits, reads) = (
    b ∷ rest,
    e ∙ append_assoc filled (b ∷ []) rest,
    Frame-cons goes f,
    omega arith,
    byte got reads,
  )

  Lacks-cons :
      (b : ℕ) (body : List ℕ)
      → Lacks (λ c. c == serial_end_flag) (b ∷ body)
      → ((b == serial_end_flag) ≡ false) × Lacks (λ c. c == serial_end_flag) body
  unfolding all_chars
  Lacks-cons b body h = (ground arith, ground arith)

  read_rest-Ends :
      (room : ℕ) (filled : List ℕ) (s : St)
      → Ends (Framed room filled s) (read_rest P room filled s)
  unfolding read_rest
  read_rest-Ends zero filled s = failed
  read_rest-Ends (suc room) filled s = Ends-bind (read_byte s) _ λ t b got.
      elim (Bool-cases (b == serial_end_flag)) [
        | inl ends ↦ rw ends (ended (b ∷ [], refl, Frame-end b ends, omega arith, byte got idle))
        | inr goes ↦ rw goes (
            Ends-mono (read_rest P room (filled ++ b ∷ []) t)
              (read_rest-Ends room (filled ++ b ∷ []) t)
              (λ u frame. Framed-cons room filled got goes))
      ]

  read_rest-Frame :
      (room : ℕ) (filled body : List ℕ) {s t : St}
      → Lacks (λ b. b == serial_end_flag) body
      → Reads s (body ++ serial_end_flag ∷ []) t
      → length body < room
      → read_rest P room filled s ≡ (t, ok (filled ++ (body ++ serial_end_flag ∷ [])))
  unfolding read_rest all_chars
  read_rest-Frame zero filled body stuffed reads fits = absurd (omega arith)
  read_rest-Frame (suc room) filled [] stuffed (byte got idle) fits = rw got refl
  read_rest-Frame (suc room) filled (b ∷ body) {t = t} stuffed (byte got reads) fits =
      let (goes, rest) = Lacks-cons b body stuffed in
      continue_with-ok (read_byte _) _ got
      ∙ rw goes (
          read_rest-Frame room (filled ++ b ∷ []) body rest reads (omega arith)
          ∙ ap (λ f. (t, ok f)) (append_assoc filled (b ∷ []) (body ++ serial_end_flag ∷ [])))

  -- Reading a packet returns a frame exactly when the port delivers its bytes, the last of them is the
  -- first end flag, and there are no more of them than the buffer's size; the port is left behind
  -- the frame.
  pub read_framed_packet_iff :
      (size : ℕ) (s t : St) (frame : List ℕ)
      → (read_framed_packet P size s ≡ (t, ok frame))
        ↔ (Frame frame × (length frame ≤ size) × Reads s frame t)
  unfolding read_framed_packet
  read_framed_packet_iff size s t frame = (
    λ h.
        let (rest, e, f, fits, reads) =
          Ends-ok (read_rest P size [] s) h (read_rest-Ends size [] s) in
        subst (λ r. Frame r × (length r ≤ size) × Reads s r t) (sym e) (f, fits, reads),
    λ h.
        let (f, fits, reads) = h in
        read_rest-Frame size [] f.body f.stuffed (subst (λ r. Reads s r t) f.whole reads)
          (omega (arith, ap length f.whole, length-append f.body (serial_end_flag ∷ [])))
        ∙ ap (λ r. (t, ok r)) (sym f.whole),
  )

-- A run that the fuel did not stop.
abbrev pub Settled : {A : Type 0} → Result A Fault → Type 0
Settled (ok a) = Unit
Settled (err (reported e)) = Unit
Settled (err out_of_fuel) = ⊥

module _ {S A B : Type 0} where
  Settled-continue :
      (r : S × Result A Error) (f : A → Action S Fault B)
      → ((t : S) (a : A) → r ≡ (t, ok a) → Settled (f a t).1)
      → Settled (continue_with (r.0, map_err reported r.1) f).1
  Settled-continue (t, ok a) f h = h t a refl
  Settled-continue (t, err e) f h = tt

Settled-reported : {A : Type 0} (r : Result A Error) → Settled (map_err reported r)
Settled-reported (ok a) = tt
Settled-reported (err e) = tt

module _ (P : Port) where
  open P use {St, read_byte}

  -- The port runs dry: each byte read leaves fewer to come.
  abbrev pub RunsDry : (St → ℕ) → Type 0
  RunsDry pending = (s t : St) (b : ℕ) → read_byte s ≡ (t, ok b) → pending t < pending s

  module _ (pending : St → ℕ) (dry : RunsDry pending) where
    Reads-pending : {s t : St} {bs : List ℕ} → Reads P s bs t → pending t + length bs ≤ pending s
    Reads-pending idle = omega arith
    Reads-pending (byte {s} {t} {b = b} got rest) = omega (arith, dry s t b got, Reads-pending rest)

    Frame-length : {frame : List ℕ} → Frame P frame → 1 ≤ length frame
    Frame-length f = omega (arith, ap length f.whole, length-append f.body (serial_end_flag ∷ []))

    module _ (M : Mctp) (R : Relay) where
      -- The loop over the packets ends, with a response or an error of the source, when its fuel is
      -- more than the bytes that the port still delivers.
      receive-Settled :
          (fuel : ℕ) (dst : Destination) (ctx : M.Context) (s : St)
          → pending s < fuel
          → Settled (receive P M R fuel dst ctx s).1
      unfolding receive
      receive-Settled zero dst ctx s h = absurd (omega arith)
      receive-Settled (suc fuel) dst ctx s h =
          Settled-continue (read_framed_packet P buffer_sz s) _ λ t packet got.
            let (f, fits, reads) = (read_framed_packet_iff P buffer_sz s t packet).0 got in
            let fewer : pending t < pending s =
              omega (arith, Reads-pending reads, Frame-length f) in
            Settled-continue (t, M.deserialize_packet ctx packet) _
              λ u next e.
                let same : t ≡ u = ap (λ r. r.0) e in
                elim (Option-cases next.1) [
                  | inl more ↦
                      rw more (receive-Settled fuel dst next.0 u (omega (arith, ap pending same)))
                  | inr (m, whole) ↦ rw whole (Settled-reported (accept P M R dst m.0 m.1))
                ]

      exchange-Settled :
          (fuel : ℕ) (dst : Destination) (request : R.Request) (body : List ℕ) (s : St)
          → ((t : St) → transmit P M R dst request body s ≡ (t, ok tt) → pending t < fuel)
          → Settled (exchange P M R fuel dst request body s).1
      exchange-Settled fuel dst request body s enough =
          Settled-continue (transmit P M R dst request body s) _
            λ t sent e. receive-Settled fuel dst M.new t (enough t e)

      -- An exchange ends, with a response or an error of the source, when each byte read leaves the
      -- port fewer to deliver and the fuel is more than it still delivers once the request is sent.
      pub send-Settled :
          (fuel : ℕ) (dst : Destination) (request : R.Request) (s : St)
          → ((body : List ℕ) (t : St)
              → transmit P M R dst request body s ≡ (t, ok tt)
              → pending t < fuel)
          → Settled (send P M R fuel dst request s).1
      unfolding send
      send-Settled fuel dst request s enough =
          Settled-continue (s, R.serialize request) _
            λ t body e.
              let same : s ≡ t = ap (λ r. r.0) e in
              elim (Bool-cases (P.is_poisoned t)) [
                | inl bad ↦ rw bad tt
                | inr good ↦ rw good (
                    exchange-Settled fuel dst request body t (
                      subst
                        (λ q.
                          (u : St)
                          → transmit P M R dst request body q ≡ (u, ok tt)
                          → pending u < fuel)
                        same (enough body)))
              ]
