-- ===== src/Gateway/Events/Received.antt =====
-- The writer and its client, over any sequence of writes.
use subport.Prelude.{
  ℕ, ◌≡◌, refl, sym, ap, ◌∙◌, inl, inr, true, false, Option, none, some, List, [], ◌∷◌, ◌++◌, ◌==◌,
  Bool-cases,
}
use mathlib.Core.List.{append-nil}
use subport.Prelude.Text.{Text}
use subport.Prelude.Json.{Fields}
use subport.Gateway.Events.{
  Format, Writer, Written, new_writer, if_fine, trim_returns, handle_line, after_line, scan, write,
}
use subport.Gateway.Events.Chunks.{
  IsPartial, line_step, byte_step, scan-append, scan-IsPartial, write_scans,
}
use mathlib.Core.Path.{subst}
use subport.Gateway.Events.Transcript.{
  Signal, delta, done, broke, transcript, quiet, live, heard?, outlook, heard-outlook,
  handle_line_quiet, handle_line_ended, with_signal, signal_of, signals,
}

outlook_now : (w : Writer) → outlook w [] ≡ w.sent
outlook_now w = elim (Bool-cases w.closed) [
  | inl y ↦ rw y refl
  | inr n ↦ rw (n, append-nil w.sent) refl
]

heard-buf : (x : Option Signal) (w : Writer) → (heard? x w).buf ≡ w.buf
heard-buf none w = refl
heard-buf (some (delta t)) w = refl
heard-buf (some done) w = refl
heard-buf (some (broke e)) w = refl

module _ (decode : Text → Option Fields) where
  signals_line :
      (start : Text) (c : ℕ) (b : Text)
      → c == 10 ≡ true
      → signals decode start (c ∷ b)
        ≡ with_signal decode (signal_of decode (trim_returns start)) (signals decode [] b)
  unfolding signals
  signals_line start c b h = rw (signals, h) refl

  signals_byte :
      (start : Text) (c : ℕ) (b : Text)
      → c == 10 ≡ false
      → signals decode start (c ∷ b) ≡ signals decode (start ++ c ∷ []) b
  unfolding signals
  signals_byte start c b h = rw (signals, h) refl

  -- A whole line.
  handle_line-outlook :
      (line : Text) (w : Writer) (rest : List Signal)
      → (v : Writer) × (handle_line decode line (quiet w) ≡ (true, quiet v))
        × (v.buf ≡ w.buf)
        × (outlook v rest ≡ outlook w (with_signal decode (signal_of decode line) rest))
  handle_line-outlook line w rest = elim (Bool-cases w.closed) [
    | inl y ↦ (w, rw y (handle_line_ended decode line (quiet w)), refl, rw y refl)
    | inr n ↦
        let x = signal_of decode line in
        (
          heard? x (live w),
          rw n (handle_line_quiet decode line w),
          heard-buf x (live w),
          heard-outlook decode x w rest ∙ rw n refl,
        )
  ]

  -- A scan by a client that refuses nothing has no error, and sends what the signals say.
  scan-outlook :
      (b : Text) (w : Writer)
      → (v : Writer) × (scan decode b (quiet w) ≡ (true, quiet v))
        × (v.sent ≡ outlook w (signals decode w.buf b))
  scan-outlook [] w = (w, unfold scan in refl, sym (unfold signals in outlook_now w))
  scan-outlook (c ∷ b) w = elim (Bool-cases (c == 10)) [
    | inl y ↦
        let (v, run, same, out) =
          handle_line-outlook (trim_returns w.buf) (record w { buf = [] }) (signals decode [] b) in
        let (u, run', sent) = scan-outlook b v in
        (
          u,
          line_step decode c b (quiet w) y ∙ ap (after_line decode b (scan decode b)) run ∙ run',
          sent
              ∙ ap (λ start. outlook v (signals decode start b)) same
              ∙ out
              ∙ ap (outlook w) (sym (signals_line w.buf c b y)),
        )
    | inr n ↦
        let (v, run, sent) = scan-outlook b (record w { buf = w.buf ++ c ∷ [] }) in
        (
          v,
          byte_step decode c b (quiet w) n ∙ run,
          sent ∙ ap (outlook w) (sym (signals_byte w.buf c b n)),
        )
  ]

  -- The Writes of a provider, up to the first error.
  abbrev pub write_all : List Text → Writer → Written
  write_all [] w = (true, w)
  write_all (b ∷ rest) w = if_fine (write decode b w) (write_all rest)

  abbrev pub joined : List Text → Text
  joined [] = []
  joined (b ∷ rest) = b ++ joined rest

  write_all-scan :
      (chunks : List Text) (w : Writer)
      → IsPartial w.buf
      → write_all chunks (quiet w) ≡ scan decode (joined chunks) (quiet w)
  write_all-scan [] w p = unfold scan in refl
  write_all-scan (b ∷ chunks) w p =
      let (v, run, _) = scan-outlook b w in
      let fine = ap (λ x. x.0) run in
      let partial = scan-IsPartial decode b (quiet w) p fine in
      ap (λ x. if_fine x (write_all chunks)) (write_scans decode b (quiet w) p ∙ run)
      ∙ write_all-scan chunks v (subst (λ x. IsPartial x.1.buf) run partial)
      ∙ ap (λ x. scan decode (joined chunks) x.1) (sym run)
      ∙ sym (scan-append decode b (joined chunks) (quiet w) fine)

-- A client that refuses nothing receives exactly the transcript of what the upstream said, however
-- the upstream's bytes were cut into writes: one opening before anything else, one frame for each
-- delta in order, one ending with the length of all deltas where the end marker came, or the error frame where
-- an error came, and nothing after either of them.
pub write_all-transcript :
    (decode : Text → Option Fields) (format : Format) (model : Text) (chunks : List Text)
    → let (fine, w) = write_all decode chunks (new_writer format model []) in
      (fine ≡ true) × (w.sent ≡ transcript format model (signals decode [] (joined decode chunks)))
write_all-transcript decode format model chunks =
    let w = new_writer format model [] in
    let (v, run, sent) = scan-outlook decode (joined decode chunks) w in
    let all = write_all-scan decode chunks w tt ∙ run in
    (ap (λ x. x.0) all, ap (λ x. x.1.sent) all ∙ sent)
