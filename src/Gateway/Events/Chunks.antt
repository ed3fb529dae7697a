-- ===== src/Gateway/Events/Chunks.antt =====
-- A Write may split the upstream's bytes anywhere.
use subport.Prelude.{
  ℕ, ◌+◌, ◌≡◌, refl, sym, ap, ◌∙◌, inl, inr, Bool, true, false, ◌||◌, not, Option, none, some, List,
  [], ◌∷◌, ◌++◌, ◌==◌, if◌then◌else◌, Bool-cases, length, All, All-append,
}
use mathlib.Core.List.{append-nil, append_assoc}
use subport.Prelude.Text.{Text, codes, text_eq, trim_space, has_prefix, is_empty}
use subport.Prelude.Json.{Json, Fields, null, bool, number, str, arr, obj}
use subport.Gateway.Events.{
  drop, Event, delta_event, error_event, emit, emit_all, ensure_started, write_delta, write_done,
  write_broken, on_frame, on_decoded, if_fine, emit_under, Writer, Written, after_line, handle_line,
  scan, trim_returns, write,
}

-- The buffer between two writes holds no whole line.
abbrev pub IsPartial : Text → Type 0
IsPartial l = All (λ c. c == 10 ≡ false) l

IsPartial-snoc : (l : Text) (c : ℕ) → IsPartial l → c == 10 ≡ false → IsPartial (l ++ c ∷ [])
IsPartial-snoc l c h e = All-append _ l (c ∷ []) h (e, tt)

-- No frame touches the buffer.
record KeepsBuf (w : Writer) (x : Written) : Type 0 where
  at : x.1.buf ≡ w.buf

nothing-KeepsBuf : (w : Writer) → KeepsBuf w (true, w)
nothing-KeepsBuf w = record { at = refl }

moved : (w v : Writer) (x : Written) → v.buf ≡ w.buf → KeepsBuf v x → KeepsBuf w x
moved w v x e h = record { at = h.at ∙ e }

if_fine-KeepsBuf :
    (w : Writer) (x : Written) (k : Writer → Written)
    → KeepsBuf w x
    → ((w' : Writer) → KeepsBuf w' (k w'))
    → KeepsBuf w (if_fine x k)
if_fine-KeepsBuf w (true, w') k h hk = record { at = (hk w').at ∙ h.at }
if_fine-KeepsBuf w (false, w') k h hk = h

if-KeepsBuf :
    (b : Bool) (w : Writer) (x y : Written)
    → KeepsBuf w x
    → KeepsBuf w y
    → KeepsBuf w (if b then x else y)
if-KeepsBuf true w x y hx hy = hx
if-KeepsBuf false w x y hx hy = hy

emit_under-KeepsBuf :
    (faults : List Bool) (e : Event) (w : Writer) → KeepsBuf w (emit_under faults e w)
emit_under-KeepsBuf [] e w = record { at = refl }
emit_under-KeepsBuf (true ∷ faults) e w = record { at = refl }
emit_under-KeepsBuf (false ∷ faults) e w = record { at = refl }

emit_all-KeepsBuf : (es : List Event) (w : Writer) → KeepsBuf w (emit_all es w)
unfolding emit_all emit
emit_all-KeepsBuf [] w = record { at = refl }
emit_all-KeepsBuf (e ∷ es) w =
    if_fine-KeepsBuf w (emit e w) (emit_all es) (emit_under-KeepsBuf w.faults e w)
      (emit_all-KeepsBuf es)

ensure_started-KeepsBuf : (w : Writer) → KeepsBuf w (ensure_started w)
unfolding ensure_started
ensure_started-KeepsBuf w =
    if-KeepsBuf w.started w _ _ (nothing-KeepsBuf w)
      (moved w _ _ refl (emit_all-KeepsBuf _ (record w { started = true })))

write_delta-KeepsBuf : (content : Text) (w : Writer) → KeepsBuf w (write_delta content w)
unfolding write_delta
write_delta-KeepsBuf content w =
    if_fine-KeepsBuf w (ensure_started w)
      (λ w'.
        emit_all (delta_event w'.format content ∷ [])
          (record w' { text_len = w'.text_len + length content }))
      (ensure_started-KeepsBuf w)
      (λ w'. moved w' _ _ refl (
        emit_all-KeepsBuf (delta_event w'.format content ∷ [])
          (record w' { text_len = w'.text_len + length content })))

write_done-KeepsBuf : (w : Writer) → KeepsBuf w (write_done w)
unfolding write_done
write_done-KeepsBuf w = if-KeepsBuf w.closed w _ _ (nothing-KeepsBuf w) (
    if_fine-KeepsBuf w (ensure_started w) _ (ensure_started-KeepsBuf w)
      (λ w'. moved w' _ _ refl (emit_all-KeepsBuf _ (record w' { closed = true }))))

write_broken-KeepsBuf : (e : Fields) (w : Writer) → KeepsBuf w (write_broken e w)
unfolding write_broken
write_broken-KeepsBuf e w =
    moved w _ _ refl
      (emit_all-KeepsBuf (error_event e ∷ []) (record w { started = true; closed = true }))

on_frame-KeepsBuf : (frame : Fields) (e : Json) (w : Writer) → KeepsBuf w (on_frame frame e w)
on_frame-KeepsBuf frame (obj e) w = write_broken-KeepsBuf e w
on_frame-KeepsBuf frame null w = if-KeepsBuf _ w _ _ (nothing-KeepsBuf w) (write_delta-KeepsBuf _ w)
on_frame-KeepsBuf frame (bool _) w =
    if-KeepsBuf _ w _ _ (nothing-KeepsBuf w) (write_delta-KeepsBuf _ w)
on_frame-KeepsBuf frame (number _) w =
    if-KeepsBuf _ w _ _ (nothing-KeepsBuf w) (write_delta-KeepsBuf _ w)
on_frame-KeepsBuf frame (str _) w =
    if-KeepsBuf _ w _ _ (nothing-KeepsBuf w) (write_delta-KeepsBuf _ w)
on_frame-KeepsBuf frame (arr _) w =
    if-KeepsBuf _ w _ _ (nothing-KeepsBuf w) (write_delta-KeepsBuf _ w)

on_decoded-KeepsBuf : (frame : Option Fields) (w : Writer) → KeepsBuf w (on_decoded frame w)
on_decoded-KeepsBuf none w = (nothing-KeepsBuf w)
on_decoded-KeepsBuf (some frame) w = on_frame-KeepsBuf frame _ w

module _ (decode : Text → Option Fields) where
  handle_line-KeepsBuf : (line : Text) (w : Writer) → KeepsBuf w (handle_line decode line w)
  unfolding handle_line
  handle_line-KeepsBuf line w =
      let payload = trim_space (drop 5 line) in
      if-KeepsBuf (is_empty line || w.closed) w _ _ (nothing-KeepsBuf w) (
        if-KeepsBuf (not (has_prefix line (codes "data:"))) w _ _ (nothing-KeepsBuf w) (
          if-KeepsBuf (text_eq payload (codes "[DONE]")) w _ _ (write_done-KeepsBuf w) (
            if-KeepsBuf (is_empty payload) w _ _ (nothing-KeepsBuf w)
              (on_decoded-KeepsBuf (decode payload) w))))

  pub line_step :
      (c : ℕ) (rest : Text) (w : Writer)
      → c == 10 ≡ true
      → scan decode (c ∷ rest) w
        ≡ after_line decode rest
            (scan decode rest)
            (handle_line decode (trim_returns w.buf) (record w { buf = [] }))
  unfolding scan
  line_step c rest w h = rw (scan, h) refl

  pub byte_step :
      (c : ℕ) (rest : Text) (w : Writer)
      → c == 10 ≡ false
      → scan decode (c ∷ rest) w ≡ scan decode rest (record w { buf = w.buf ++ c ∷ [] })
  unfolding scan
  byte_step c rest w h = rw (scan, h) refl

  after_line-append :
      (a b : Text) (x : Written)
      → ((w : Writer)
          → (scan decode a w).0 ≡ true
          → scan decode (a ++ b) w ≡ scan decode b (scan decode a w).1)
      → (after_line decode a (scan decode a) x).0 ≡ true
      → after_line decode (a ++ b) (scan decode (a ++ b)) x
        ≡ scan decode b (after_line decode a (scan decode a) x).1
  after_line-append a b (true, w) ih h = ih w h
  after_line-append a b (false, w) ih h = cc

  pub scan-append :
      (a b : Text) (w : Writer)
      → (scan decode a w).0 ≡ true
      → scan decode (a ++ b) w ≡ scan decode b (scan decode a w).1
  scan-append [] b w h = unfold scan in refl
  scan-append (c ∷ a) b w h = elim (Bool-cases (c == 10)) [
    | inl y ↦
        line_step c (a ++ b) w y
        ∙ after_line-append a b _ (scan-append a b) (ap (λ x. x.0) (sym (line_step c a w y)) ∙ h)
        ∙ ap (λ x. scan decode b x.1) (sym (line_step c a w y))
    | inr n ↦
        byte_step c (a ++ b) w n
        ∙ scan-append a b (record w { buf = w.buf ++ c ∷ [] })
            (ap (λ x. x.0) (sym (byte_step c a w n)) ∙ h)
        ∙ ap (λ x. scan decode b x.1) (sym (byte_step c a w n))
  ]

  -- Bytes without a line end only fill the buffer.
  scan_partial :
      (a : Text) (w : Writer)
      → IsPartial a
      → scan decode a w ≡ (true, record w { buf = w.buf ++ a })
  scan_partial [] w h = unfold scan in rw (append-nil w.buf) refl
  scan_partial (c ∷ a) w h =
      byte_step c a w h.0
      ∙ scan_partial a (record w { buf = w.buf ++ c ∷ [] }) h.1
      ∙ rw (append_assoc w.buf (c ∷ []) a) refl

  after_line-IsPartial :
      (a : Text) (x : Written)
      → ((w : Writer)
          → IsPartial w.buf
          → (scan decode a w).0 ≡ true
          → IsPartial (scan decode a w).1.buf)
      → IsPartial x.1.buf
      → (after_line decode a (scan decode a) x).0 ≡ true
      → IsPartial (after_line decode a (scan decode a) x).1.buf
  after_line-IsPartial a (true, w) ih p e = ih w p e
  after_line-IsPartial a (false, w) ih p e = cc

  -- A scan that ends with no error leaves a part of a line.
  pub scan-IsPartial :
      (a : Text) (w : Writer)
      → IsPartial w.buf
      → (scan decode a w).0 ≡ true
      → IsPartial (scan decode a w).1.buf
  scan-IsPartial [] w h e = unfold scan in h
  scan-IsPartial (c ∷ a) w h e = elim (Bool-cases (c == 10)) [
    | inl y ↦
        let w0 : Writer = record w { buf = [] } in
        let same = handle_line-KeepsBuf (trim_returns w.buf) w0 in
        rw (line_step c a w y) (
          after_line-IsPartial a _ (scan-IsPartial a) (rw same.at tt)
            (ap (λ x. x.0) (sym (line_step c a w y)) ∙ e))
    | inr n ↦ rw (byte_step c a w n) (
        scan-IsPartial a (record w { buf = w.buf ++ c ∷ [] }) (IsPartial-snoc w.buf c h n)
          (ap (λ x. x.0) (sym (byte_step c a w n)) ∙ e))
  ]

  write_lem :
      (b : Text) (w : Writer)
      → IsPartial w.buf
      → write decode b w ≡ scan decode (w.buf ++ b) (record w { buf = [] })
  unfolding write
  write_lem [] w p = sym (rw (append-nil w.buf) (scan_partial w.buf (record w { buf = [] }) p))
  write_lem (c ∷ b) w p = refl

  -- The buffer is scanned again, to no effect.
  pub write_scans : (b : Text) (w : Writer) → IsPartial w.buf → write decode b w ≡ scan decode b w
  write_scans b w p =
      let again = scan_partial w.buf (record w { buf = [] }) p in
      write_lem b w p
      ∙ scan-append w.buf b (record w { buf = [] }) (ap (λ x. x.0) again)
      ∙ ap (λ x. scan decode b x.1) again

  -- How the upstream's bytes are split over two writes makes no difference: after a first Write that
  -- ends with no error, a second one leaves the writer, its error and the client's frames as one Write
  -- of both would have.
  pub write-append :
      (a b : Text) (w : Writer)
      → IsPartial w.buf
      → (write decode a w).0 ≡ true
      → write decode (a ++ b) w ≡ write decode b (write decode a w).1
  write-append a b w p h =
      let first = write_scans a w p in
      let fine = ap (λ x. x.0) (sym first) ∙ h in
      write_scans (a ++ b) w p
      ∙ scan-append a b w fine
      ∙ sym (write_scans b (scan decode a w).1 (scan-IsPartial a w p fine))
      ∙ ap (λ x. write decode b x.1) (sym first)
