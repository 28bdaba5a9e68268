-- ===== src/Driver/Stop.antt =====
-- Stopping a print: what the driver has in its buffer afterwards.
use print3d.Prelude.{
  ℕ, ◌+◌, ◌≤◌, ◌≡◌, ◌≢◌, refl, ap, sym, ◌∙◌, Bool, true, false, Option, none, some, [], arith, ltb,
  if◌then◌else◌, length, inl, inr, Bool-cases,
}
use print3d.Prelude.Int.{ℤ, negsuc}
use print3d.Prelude.Text.{Bytes, codes}
use print3d.GcodeBuffer.Clean.{clean}
use print3d.GcodeBuffer.State.{
  GcodeBuffer, GcodeSetResult, ok, clear, max_buffer_size, set_current_line,
}
use print3d.GcodeBuffer.Append.{
  append, append_checked, append_loop, housekeeping, sanity, exceeds_max, set, check_number,
  check_total, check_source,
}
use print3d.GcodeBuffer.Contents.{joined}
use print3d.GcodeBuffer.Chunks.{append-Adds}
use print3d.GcodeBuffer.Lines.{get_next_line}
use print3d.Driver.State.{
  State, stopping, Driver, is_printer_online, extract_gcode_info, set_targets, last_target,
  is_printing,
}
use print3d.Driver.Print.{
  transmit, accepted, then_start, advance, started, reset_print, send_code, accept_gcode, set_gcode,
  print_next_line, begin_print, start_print, stop_print,
}

-- A cleared buffer accepts whatever fits it.
set-accepts :
    (b : GcodeBuffer) (gcode : Bytes)
    → length gcode ≤ max_buffer_size
    → set b gcode (negsuc 0) none
      ≡ some (append_loop (length gcode) (housekeeping (clear b) (negsuc 0) none) gcode 0, ok)
unfolding set append append_checked sanity check_number check_total check_source exceeds_max clear
set-accepts b gcode h =
    let e : ltb max_buffer_size (0 + length gcode) ≡ false = ground arith in rw e refl

-- What a driver's buffer holds.
abbrev pub held : Driver → Bytes
held d = joined d.gcode_buffer.buckets

set-contents :
    (b : GcodeBuffer) (gcode : Bytes) (b' : GcodeBuffer)
    → set b gcode (negsuc 0) none ≡ some (b', ok)
    → joined b'.buckets ≡ clean b.keep_gpx_macro_comments gcode
unfolding set clear
set-contents b gcode b' h = (append-Adds (clear b) gcode (negsuc 0) none b' tt h).joins

held-reset_print : (d : Driver) → held (reset_print d).0 ≡ held d
unfolding reset_print set_current_line
held-reset_print d = elim (Bool-cases (is_printer_online d)) [
  | inl e ↦ rw (e, reset_print) refl
  | inr e ↦ rw (e, reset_print) refl
]

keeps-reset_print :
    (d : Driver)
    → (reset_print d).0.gcode_buffer.keep_gpx_macro_comments
      ≡ d.gcode_buffer.keep_gpx_macro_comments
unfolding reset_print set_current_line
keeps-reset_print d = elim (Bool-cases (is_printer_online d)) [
  | inl e ↦ rw (e, reset_print) refl
  | inr e ↦ rw (e, reset_print) refl
]

abbrev held_of : Option Driver → Bytes
held_of none = []
held_of (some d) = held d

abbrev held_answer : Option (Driver × GcodeSetResult) → Bytes
held_answer none = []
held_answer (some p) = held p.0

abbrev held_pair : Option (Driver × Bool) → Bytes
held_pair none = []
held_pair (some p) = held p.0

held-begin_print : (d : Driver) (s : State) → held (begin_print d s).0 ≡ held d
unfolding begin_print
held-begin_print d s = elim (Bool-cases (is_printer_online d)) [
  | inl e ↦ elim (Bool-cases (is_printing d.state)) [
    | inl f ↦ rw (e, f, begin_print) refl
    | inr f ↦ rw (e, f, begin_print) refl
  ]
  | inr e ↦ rw (e, begin_print) refl
]

set_targets-held :
    (d : Driver) (t b : Option ℕ) (e : Driver) → set_targets d t b ≡ some e → held e ≡ held d
set_targets-held d (some t) (some b) e h = ap held_of (sym h)
set_targets-held d (some t) none e h = cc
set_targets-held d none b e h = cc

none_driver : (e : Driver) → none ≢ some e
none_driver e h = cc

transmit-none : (code : Bytes) → transmit code none ≡ none
unfolding transmit
transmit-none code = refl

transmit-held :
    (code : Bytes) (o : Option Driver) (e : Driver) → transmit code o ≡ some e → held_of o ≡ held e
unfolding transmit
transmit-held code none e h = cc
transmit-held code (some d) e h = ap held_of h

advance-held : (o : Option Driver) (e : Driver) → advance o ≡ some e → held_of o ≡ held e
unfolding advance set_current_line
advance-held none e h = cc
advance-held (some d) e h = ap held_of h

transmit_if-held :
    (d e : Driver) (code : Bytes) (open_port : Bool) (o : Option Driver)
    → ((x : Driver) → o ≡ some x → held x ≡ held d)
    → (if open_port then transmit code o else some d) ≡ some e
    → held e ≡ held d
transmit_if-held d e code false o keeps h = ap held_of (sym h)
transmit_if-held d e code true none keeps h = absurd (none_driver e (sym (transmit-none code) ∙ h))
transmit_if-held d e code true (some x) keeps h =
    sym (transmit-held code (some x) e h) ∙ keeps x refl

started-held :
    (o : Option Driver) (e : Driver) (answer : Bool) → started o ≡ some (e, answer) → o ≡ some e
started-held none e answer h = cc
started-held (some x) e answer h = ground arith

started_if-held :
    (begun : Driver × Bool) (o : Option Driver) (e : Driver) (answer : Bool)
    → ((x : Driver) → o ≡ some x → held x ≡ held begun.0)
    → (if begun.1 then started o else some begun) ≡ some (e, answer)
    → held e ≡ held begun.0
started_if-held (b, true) o e answer keeps h = keeps e (started-held o e answer h)
started_if-held (b, false) o e answer keeps h = ap held_pair (sym h)

accepted-held :
    (gsr : GcodeSetResult) (o : Option Driver) (x : Driver) (r : GcodeSetResult) (t : Bytes)
    → ((y : Driver) → o ≡ some y → held y ≡ t)
    → accepted gsr o ≡ some (x, r)
    → held x ≡ t
unfolding accepted
accepted-held gsr none x r t keeps h = cc
accepted-held gsr (some y) x r t keeps h = ap held_answer (sym h) ∙ keeps y refl

module _ (number : Bytes → ℤ) where
  extract_gcode_info-held :
      (d : Driver) (gcode : Bytes) (e : Driver)
      → extract_gcode_info number d gcode ≡ some e
      → held e ≡ held d
  unfolding extract_gcode_info
  extract_gcode_info-held d gcode e h =
      set_targets-held d (last_target number (codes "M109") gcode d.target_temperature)
        (last_target number (codes "M190") gcode d.target_bed_temperature) e h

  some_driver : (d e : Driver) → some d ≡ some e → held e ≡ held d
  some_driver d e h = ap held_of (sym h)

  send_code-held :
      (d : Driver) (code : Bytes) (e : Driver) → send_code number d code ≡ some e → held e ≡ held d
  unfolding send_code
  send_code-held d code e h =
      transmit_if-held d e code d.is_open (extract_gcode_info number d code)
        (extract_gcode_info-held d code) h

  print_next_line-held : (d e : Driver) → print_next_line number d ≡ some e → held e ≡ held d
  unfolding print_next_line
  print_next_line-held d e h = elim (Bool-cases (ltb 0 (get_next_line d.gcode_buffer 1).0)) [
    | inr f ↦ some_driver (reset_print d).0 e (rw (f, print_next_line) at h) ∙ held-reset_print d
    | inl f ↦
        let k : advance (send_code number d (get_next_line d.gcode_buffer 1).1) ≡ some e =
          rw (f, print_next_line) at h in
        go (send_code number d (get_next_line d.gcode_buffer 1).1) refl k
  ]
    where
      go :
          (o : Option Driver)
          → send_code number d (get_next_line d.gcode_buffer 1).1 ≡ o
          → advance o ≡ some e
          → held e ≡ held d
      go none q k = absurd (cc)
      go (some x) q k =
          sym (advance-held (some x) e k) ∙ send_code-held d (get_next_line d.gcode_buffer 1).1 x q

  start_print-held :
      (d : Driver) (s : State) (e : Driver) (answer : Bool)
      → start_print number d s ≡ some (e, answer)
      → held e ≡ held d
  unfolding start_print
  start_print-held d s e answer h =
      started_if-held (begin_print d s) (print_next_line number (begin_print d s).0) e answer
        (print_next_line-held (begin_print d s).0) h
      ∙ held-begin_print d s

  accept_gcode-held :
      (d x : Driver) (gcode : Bytes) (b : GcodeBuffer) (r : GcodeSetResult)
      → accept_gcode number d gcode (some (b, ok)) ≡ some (x, r)
      → held x ≡ joined b.buckets
  unfolding accept_gcode
  accept_gcode-held d x gcode b r h =
      accepted-held ok (extract_gcode_info number (record d { gcode_buffer = b }) gcode) x r
        (joined b.buckets) (extract_gcode_info-held (record d { gcode_buffer = b }) gcode) h

  set_gcode-held :
      (d x : Driver) (gcode : Bytes) (r : GcodeSetResult)
      → length gcode ≤ max_buffer_size
      → set_gcode number d gcode (negsuc 0) none ≡ some (x, r)
      → held x ≡ clean d.gcode_buffer.keep_gpx_macro_comments gcode
  unfolding set_gcode
  set_gcode-held d x gcode r l h =
      let b =
        append_loop (length gcode) (housekeeping (clear d.gcode_buffer) (negsuc 0) none) gcode 0 in
      let set_ok = set-accepts d.gcode_buffer gcode l in
      let h' : accept_gcode number d gcode (some (b, ok)) ≡ some (x, r) =
        ap (accept_gcode number d gcode) (sym set_ok) ∙ h in
      accept_gcode-held d x gcode b r h' ∙ set-contents d.gcode_buffer gcode b set_ok

  then_start-held :
      (o : Option (Driver × GcodeSetResult)) (e : Driver) (answer : Bool)
      → then_start number stopping o ≡ some (e, answer)
      → (x : Driver) × (r : GcodeSetResult) × (o ≡ some (x, r)) × (held e ≡ held x)
  then_start-held none e answer h = cc
  then_start-held (some p) e answer h = (p.0, p.1, refl, start_print-held p.0 stopping e answer h)

  -- If stopPrint does not crash, the buffer that it leaves holds the cleaned end code and nothing
  -- of what was printing. The end code must fit the buffer.
  pub stop_print-held :
      (d e : Driver) (endcode : Bytes) (answer : Bool)
      → length endcode ≤ max_buffer_size
      → stop_print number d endcode ≡ some (e, answer)
      → held e ≡ clean d.gcode_buffer.keep_gpx_macro_comments endcode
  unfolding stop_print
  stop_print-held d e endcode answer l h =
      let (x, r, k, s) =
        then_start-held (set_gcode number (reset_print d).0 endcode (negsuc 0) none) e answer h in
      s
      ∙ set_gcode-held (reset_print d).0 x endcode r l k
      ∙ ap (λ keep. clean keep endcode) (keeps-reset_print d)
