-- ===== src/Driver/Response.antt =====
-- src/drivers/MarlinDriver.cpp: what the driver does with a line that the printer answers.
use print3d.Prelude.{
  ℕ, ◌+◌, ◌-◌, Bool, false, ◌&&◌, ◌||◌, Option, none, some, List, [], ◌∷◌, ltb, ◌==◌, if◌then◌else◌,
}
use print3d.Prelude.Int.{ℤ, pos, ◌-ℤ◌}
use print3d.Prelude.Text.{Bytes, codes, find, find_text}
use print3d.Ipc.Wire.{to_uint16}
use print3d.GcodeBuffer.State.{set_current_line}
use print3d.GcodeBuffer.Lines.{erase_line, is_some}
use print3d.Driver.State.{idle, Driver, is_printing, find_number}
use print3d.Driver.Print.{send_code, print_next_line}

-- `find(...) == 0`
unfoldable pub at_start : Option ℕ → Bool
at_start none = false
at_start (some p) = p == 0

-- A position behind one that may be npos, which wraps to 0.
unfoldable pub behind : Option ℕ → ℕ → ℕ
behind none n = n - 1
behind (some p) n = p + n

-- `code.find('/', pos)`; from npos nothing is found.
unfoldable pub find_slash : Bytes → Option ℕ → Option ℕ
unfolding find
find_slash code none = none
find_slash code (some p) = find code b'/' p

module _ (number : Bytes → ℤ) where
  -- A temperature read behind a position, or the old one if there is no such position.
  unfoldable pub read_temperature : Bytes → Option ℕ → ℕ → ℕ → Option ℕ
  unfolding find_number to_uint16
  read_temperature code none n old = some old
  read_temperature code (some p) n old = elim (find_number number code (p + n)) [
    | none ↦ none
    | some v ↦ some (to_uint16 v)
  ]

  unfoldable pub parse_bed : Driver → Bytes → Option Driver
  unfolding read_temperature find_text find_slash
  parse_bed d code =
      let p = find_text code (codes "B:") 0 in
      elim (read_temperature code p 2 d.bed_temperature) [
        | none ↦ none
        | some t ↦ elim (read_temperature code (find_slash code p) 1 d.target_bed_temperature) [
          | none ↦ none
          | some target ↦ some (record d { bed_temperature = t; target_bed_temperature = target })
        ]
      ]

  unfoldable pub parse_temperatures : Driver → Bytes → Option Driver
  unfolding find_number to_uint16 read_temperature find_text find_slash at_start behind parse_bed
  parse_temperatures d code =
      let p = find_text code (codes "T:") 0 in
      elim (find_number number code (behind p 2)) [
        | none ↦ none
        | some v ↦ elim (read_temperature code (find_slash code p) 1 d.target_temperature) [
          | none ↦ none
          | some target ↦
              parse_bed
                (record d {
                  heating = at_start p;
                  temperature = to_uint16 v;
                  target_temperature = target;
                })
                code
        ]
      ]

  unfoldable pub connection_made : Driver → Driver
  unfolding is_printing
  connection_made d =
      let e =
        if d.check_connection then record d { check_connection = false; state = idle } else d in
      record e { check_temperature_interval = if is_printing e.state then pos 5000 else pos 1500 }

  unfoldable pub read_response_code : Driver → Bytes → Option Driver
  unfolding find_text at_start parse_temperatures connection_made erase_line print_next_line
      is_printing set_current_line
  read_response_code d code =
      if at_start (find_text code (codes "ok T:") 0) || at_start (find_text code (codes "T:") 0)
      then elim (parse_temperatures d code) [ none ↦ none | some e ↦ some (connection_made e) ]
      else if at_start (find_text code (codes "ok") 0)
      then if is_printing d.state
        then print_next_line number (record d { gcode_buffer = (erase_line d.gcode_buffer 1).0 })
        else some d
      else if is_some (find_text code (codes "start") 0)
      then some d
      else if is_some (find_text code (codes "Resend:") 0)
      then print_next_line number (record d {
        gcode_buffer = set_current_line d.gcode_buffer (d.gcode_buffer.current_line -ℤ pos 1);
      })
      else some d

  unfoldable pub check_temperature : Driver → Option Driver
  unfolding send_code
  check_temperature d = send_code number d (codes "M105")

  -- The part of `update` that watches the temperature, its timer run out.
  unfoldable pub temperature_due : Driver → Option Driver
  unfolding check_temperature
  temperature_due d =
      if d.check_connection && ltb d.check_temperature_attempt 3
      then some (record d { check_temperature_attempt = d.check_temperature_attempt + 1 })
      else check_temperature d

  -- The lines that the printer has sent, in order.
  unfoldable pub read_lines : Driver → List Bytes → Option Driver
  unfolding read_response_code
  read_lines d [] = some d
  read_lines d (l ∷ ls) = elim (read_response_code d l) [ none ↦ none | some e ↦ read_lines e ls ]
