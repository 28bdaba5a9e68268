-- ===== src/Driver/Delivery/Whole.antt =====
-- A whole print, from startPrint to its last confirmation.
use print3d.Prelude.{
  ℕ, suc, ◌≡◌, refl, ap, sym, ◌∙◌, subst, Bool, true, some, List, [], ◌∷◌, ◌++◌, map, arith,
  if◌then◌else◌, length, append_assoc, append-nil, inl, inr, Bool-cases,
}
use print3d.Prelude.Int.{ℤ, pos}
use print3d.Prelude.Text.{Bytes, lf, count}
use print3d.GcodeBuffer.State.{set_current_line}
use print3d.GcodeBuffer.Lines.{erase_line}
use print3d.GcodeBuffer.Contents.{joined}
use print3d.GcodeBuffer.Counts.{IsValid, set_current_line-IsValid}
use print3d.GcodeBuffer.Packed.{Packed}
use print3d.Driver.State.{State, idle, Driver, set_state, is_printer_online, is_printing}
use print3d.Driver.Print.{started, print_next_line, begin_print, start_print}
use print3d.Driver.Response.{read_lines}
use print3d.Driver.Delivery.Lines.{ended, AreLines, sent_line, text-Front}
use print3d.Driver.Delivery.Sending.{
  Prints, Delivered, print_next_line-Prints, print_next_line-Delivered,
}
use print3d.Driver.Delivery.Answers.{
  done, notice, confirm, Answers, read_response_code-confirm, read_response_code-notice,
  read_lines-next, read_lines-quiet,
}

erased_driver : Driver → Driver
erased_driver d = record d { gcode_buffer = (erase_line d.gcode_buffer 1).0 }

erased-Prints :
    (d : Driver) (sent : List Bytes) (l : Bytes) (ls : List Bytes)
    → Prints d sent (l ∷ ls)
    → count lf l ≡ 0
    → Prints (erased_driver d) sent ls
unfolding erased_driver
erased-Prints d sent l ls h one =
    let f = text-Front d.gcode_buffer l ls h.valid h.packed one h.text in
    record {
      open_port = h.open_port;
      busy = h.busy;
      valid = f.still_valid;
      packed = f.still_packed;
      text = f.erased;
      so_far = h.so_far;
    }

-- What startPrint prepares, whether a print is going on or not.
begun : Driver → Driver
begun d =
    if is_printing d.state
    then d
    else record d { state = idle; gcode_buffer = set_current_line d.gcode_buffer (pos 0) }

begin_print-begun :
    (d : Driver) (s : State)
    → is_printer_online d ≡ true
    → begin_print d s ≡ (set_state (begun d) s, true)
unfolding begin_print is_printer_online begun
begin_print-begun d s h = rw h refl

begun-Prints :
    (d : Driver) (s : State) (ls : List Bytes)
    → is_printing s ≡ true
    → d.is_open ≡ true
    → IsValid d.gcode_buffer
    → Packed d.gcode_buffer.buckets
    → joined d.gcode_buffer.buckets ≡ ended ls
    → Prints (set_state (begun d) s) d.sent ls
unfolding begun set_current_line
begun-Prints d s ls busy o v p e = elim (Bool-cases (is_printing d.state)) [
  | inl t ↦
      rw t (record { open_port = o; busy = busy; valid = v; packed = p; text = e; so_far = refl })
  | inr t ↦ rw t (record {
    open_port = o;
    busy = busy;
    valid = set_current_line-IsValid d.gcode_buffer (pos 0) v;
    packed = p;
    text = e;
    so_far = refl;
  })
]

module _ (number : Bytes → ℤ) where
  -- Every confirmation sends the next line, and the last one ends the print.
  read_lines-Delivered :
      {n : ℕ} {rest : List Bytes} (d : Driver) (sent : List Bytes) (l : Bytes) (ls : List Bytes)
      → n ≡ suc (length ls)
      → Prints d sent (l ∷ ls)
      → AreLines (l ∷ ls)
      → Answers n rest
      → (e : Driver) × (read_lines number d rest ≡ some e) × Delivered e (sent ++ map sent_line ls)
  unfolding erased_driver
  read_lines-Delivered d sent l ls z h lines done = absurd (omega arith)
  read_lines-Delivered d sent l ls z h lines (notice {rest = r} a q more) =
      let (e, run, end) = read_lines-Delivered d sent l ls z h lines more in
      (e, read_lines-next number d d a r (read_response_code-notice number d a q) ∙ run, end)
  read_lines-Delivered d sent l [] z h lines (confirm {rest = r} a q more) =
      let (e, printed, end) =
        print_next_line-Delivered number (erased_driver d) sent
          (erased-Prints d sent l [] h lines.0) in
      (
        e,
        read_lines-next number d e a r (read_response_code-confirm number d a q h.busy ∙ printed)
            ∙ read_lines-quiet number e (omega arith) more,
        subst (λ s. Delivered e s) (sym (append-nil sent)) end,
      )
  read_lines-Delivered d sent l (m ∷ ls) z h lines (confirm {rest = r} a q more) =
      let (x, printed, going) =
        print_next_line-Prints number (erased_driver d) sent m ls
          (erased-Prints d sent l (m ∷ ls) h lines.0) lines.2 in
      let (e, run, end) =
        read_lines-Delivered x (sent ++ (sent_line m ∷ [])) m ls (omega arith) going lines.2 more in
      (
        e,
        read_lines-next number d x a r (read_response_code-confirm number d a q h.busy ∙ printed)
            ∙ run,
        subst (λ s. Delivered e s) (append_assoc sent (sent_line m ∷ []) (map sent_line ls)) end,
      )

  start_print-begun :
      (d x : Driver) (s : State)
      → is_printer_online d ≡ true
      → print_next_line number (set_state (begun d) s) ≡ some x
      → start_print number d s ≡ some (x, true)
  unfolding start_print
  start_print-begun d x s h e =
      ap (λ (p : Driver × Bool). if p.1 then started (print_next_line number p.0) else some p)
        (begin_print-begun d s h)
      ∙ ap started e

  -- A print of a valid buffer is delivered whole: startPrint and the answers of the printer, a
  -- confirmation for each line and notices at any place, send every line of the buffer once and in
  -- its order, and the driver is idle then, with nothing left. The port is open, the printer online,
  -- no bucket but the last one is empty, and no line has a heat command without room for a number.
  pub start_print-Delivered :
      (d : Driver) (s : State) (ls rest : List Bytes)
      → is_printing s ≡ true
      → d.is_open ≡ true
      → is_printer_online d ≡ true
      → IsValid d.gcode_buffer
      → Packed d.gcode_buffer.buckets
      → joined d.gcode_buffer.buckets ≡ ended ls
      → AreLines ls
      → Answers (length ls) rest
      → (x e : Driver) × (start_print number d s ≡ some (x, true))
        × (read_lines number x rest ≡ some e)
        × Delivered e (d.sent ++ map sent_line ls)
  start_print-Delivered d s [] rest busy o online v p e lines more =
      let h = begun-Prints d s [] busy o v p e in
      let (x, printed, end) = print_next_line-Delivered number (set_state (begun d) s) d.sent h in
      (
        x,
        x,
        start_print-begun d x s online printed,
        read_lines-quiet number x refl more,
        subst (λ t. Delivered x t) (sym (append-nil d.sent)) end,
      )
  start_print-Delivered d s (l ∷ ls) rest busy o online v p e lines more =
      let h = begun-Prints d s (l ∷ ls) busy o v p e in
      let (x, printed, going) =
        print_next_line-Prints number (set_state (begun d) s) d.sent l ls h lines in
      let (y, run, end) =
        read_lines-Delivered x (d.sent ++ (sent_line l ∷ [])) l ls refl going lines more in
      (
        x,
        y,
        start_print-begun d x s online printed,
        run,
        subst (λ t. Delivered y t) (append_assoc d.sent (sent_line l ∷ []) (map sent_line ls)) end,
      )
