-- ===== src/Driver/Delivery/Sending.antt =====
-- What printNextLine does with the lines of a buffer: it sends the first one, or ends the print.
use print3d.Prelude.{
  ℕ, ◌+◌, ◌≤◌, ◌≡◌, refl, ap, ◌∙◌, subst, true, false, some, List, [], ◌∷◌, ◌++◌, arith, ltb,
  if◌then◌else◌, length, inl, inr, Option-cases,
}
use print3d.Prelude.Int.{ℤ, pos, ◌+ℤ◌}
use print3d.Prelude.Text.{Bytes, codes, rfind_text}
use print3d.Ipc.Wire.{to_uint16}
use print3d.GcodeBuffer.State.{set_current_line}
use print3d.GcodeBuffer.Lines.{get_next_line}
use print3d.GcodeBuffer.Contents.{joined}
use print3d.GcodeBuffer.Counts.{IsValid, set_current_line-IsValid}
use print3d.GcodeBuffer.Packed.{Packed}
use print3d.Driver.State.{
  State, idle, Driver, is_printer_online, is_online_state, extract_gcode_info, last_target,
  is_printing, find_number, number_text, number_end,
}
use print3d.Driver.Print.{transmit, advance, reset_print, send_code, print_next_line}
use print3d.Driver.Delivery.Lines.{
  ended, HasRoom, IsReadable, AreLines, sent_line, text-Front, empty_shown,
}

-- A printing driver with the lines that are left in its buffer, the first of them sent.
pub record Prints (d : Driver) (sent ls : List Bytes) : Type 0 where
  pub open_port : d.is_open ≡ true
  pub busy : is_printing d.state ≡ true
  pub valid : IsValid d.gcode_buffer
  pub packed : Packed d.gcode_buffer.buckets
  pub text : joined d.gcode_buffer.buckets ≡ ended ls
  pub so_far : d.sent ≡ sent

-- The print is over: everything is sent, and nothing is left.
pub record Delivered (e : Driver) (sent : List Bytes) : Type 0 where
  pub all_sent : e.sent ≡ sent
  pub is_idle : e.state ≡ idle
  pub nothing_left : joined e.gcode_buffer.buckets ≡ []

printing_online : (s : State) → is_printing s ≡ true → is_online_state s ≡ true
unfolding is_printing is_online_state
printing_online s h = ground arith

reset_print-online :
    (d : Driver)
    → is_online_state d.state ≡ true
    → (reset_print d).0
      ≡ record d { state = idle; gcode_buffer = set_current_line d.gcode_buffer (pos 0) }
unfolding reset_print is_printer_online
reset_print-online d h = ground (arith)

module _ (number : Bytes → ℤ) where
  find_number_room :
      (code : Bytes) (start : ℕ)
      → start ≤ length code
      → (v : ℤ) × (find_number number code start ≡ some v)
  unfolding find_number
  find_number_room code start h =
      let e : ltb (length code) start ≡ false = ground arith in
      (number (number_text code start (number_end code start)), rw e refl)

  last_target_room :
      (command code : Bytes) (old : ℕ)
      → HasRoom (rfind_text code command) (length code)
      → (t : ℕ) × (last_target number command code old ≡ some t)
  unfolding last_target
  last_target_room command code old h = elim (Option-cases (rfind_text code command)) [
    | inl e ↦ (old, rw (e, last_target) refl)
    | inr (p, e) ↦
        let (v, f) = find_number_room code (p + 6) (subst (λ o. HasRoom o (length code)) e h) in
        (to_uint16 v, rw (e, f, last_target) refl)
  ]

  -- Reading a line changes the targets at most.
  extract_gcode_info-readable :
      (d : Driver) (code : Bytes)
      → IsReadable code
      → (t b : ℕ) × (extract_gcode_info number d code
          ≡ some (record d { target_temperature = t; target_bed_temperature = b }))
  unfolding extract_gcode_info
  extract_gcode_info-readable d code h =
      let (t, e) = last_target_room (codes "M109") code d.target_temperature h.0 in
      let (b, f) = last_target_room (codes "M190") code d.target_bed_temperature h.1 in
      (t, b, rw (e, f) refl)

  send_code-is_open :
      (d : Driver) (code : Bytes)
      → d.is_open ≡ true
      → send_code number d code ≡ transmit code (extract_gcode_info number d code)
  unfolding send_code
  send_code-is_open d code h =
      ap (λ b. if b then transmit code (extract_gcode_info number d code) else some d) h

  send_code-open :
      (d e : Driver) (code : Bytes)
      → d.is_open ≡ true
      → extract_gcode_info number d code ≡ some e
      → send_code number d code ≡ some (record e { sent = e.sent ++ (sent_line code ∷ []) })
  unfolding transmit
  send_code-open d e code h k = send_code-is_open d code h ∙ ap (transmit code) k

  print_next_line-shown :
      (d : Driver) (e : Driver) (line : Bytes)
      → get_next_line d.gcode_buffer 1 ≡ (1, line)
      → send_code number d line ≡ some e
      → print_next_line number d ≡ advance (some e)
  unfolding print_next_line
  print_next_line-shown d e line h k = rw (h, k, print_next_line) refl

  print_next_line-empty :
      (d : Driver)
      → (get_next_line d.gcode_buffer 1).0 ≡ 0
      → print_next_line number d ≡ some (reset_print d).0
  unfolding print_next_line
  print_next_line-empty d h = rw (h, print_next_line) refl

  -- The driver once it has sent a line that it could read.
  abbrev after_line : Driver → Bytes → ℕ → ℕ → Driver
  after_line d line t b = record d {
    target_temperature = t;
    target_bed_temperature = b;
    sent = d.sent ++ (sent_line line ∷ []);
    gcode_buffer = set_current_line d.gcode_buffer (d.gcode_buffer.current_line +ℤ pos 1);
  }

  print_next_line-sends :
      (d : Driver) (line : Bytes)
      → d.is_open ≡ true
      → IsReadable line
      → get_next_line d.gcode_buffer 1 ≡ (1, line)
      → (t b : ℕ) × (print_next_line number d ≡ some (after_line d line t b))
  unfolding advance
  print_next_line-sends d line o r shown =
      let (t, b, read) = extract_gcode_info-readable d line r in
      let x = record d { target_temperature = t; target_bed_temperature = b } in
      (
        t,
        b,
        print_next_line-shown d (record x { sent = x.sent ++ (sent_line line ∷ []) }) line shown
            (send_code-open d x line o read),
      )

  -- With a line in front, that line is sent, and the driver goes on printing it.
  pub print_next_line-Prints :
      (d : Driver) (sent : List Bytes) (l : Bytes) (ls : List Bytes)
      → Prints d sent (l ∷ ls)
      → AreLines (l ∷ ls)
      → (e : Driver) × (print_next_line number d ≡ some e)
        × Prints e (sent ++ (sent_line l ∷ [])) (l ∷ ls)
  unfolding set_current_line
  print_next_line-Prints d sent l ls h lines =
      let f = text-Front d.gcode_buffer l ls h.valid h.packed lines.0 h.text in
      let (t, b, e) = print_next_line-sends d l h.open_port lines.1 f.shown in
      (
        after_line d l t b,
        e,
        record {
          open_port = h.open_port;
          busy = h.busy;
          valid =
              set_current_line-IsValid d.gcode_buffer (d.gcode_buffer.current_line +ℤ pos 1)
                h.valid;
          packed = h.packed;
          text = h.text;
          so_far = ap (λ s. s ++ (sent_line l ∷ [])) h.so_far;
        },
      )

  -- With no line left the print is over.
  pub print_next_line-Delivered :
      (d : Driver) (sent : List Bytes)
      → Prints d sent []
      → (e : Driver) × (print_next_line number d ≡ some e) × Delivered e sent
  unfolding set_current_line
  print_next_line-Delivered d sent h =
      let r = reset_print-online d (printing_online d.state h.busy) in
      (
        record d { state = idle; gcode_buffer = set_current_line d.gcode_buffer (pos 0) },
        print_next_line-empty d (empty_shown d.gcode_buffer d.gcode_buffer.buckets refl h.text)
            ∙ ap some r,
        record { all_sent = h.so_far; is_idle = refl; nothing_left = h.text },
      )
