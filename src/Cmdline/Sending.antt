-- ===== src/Cmdline/Sending.antt =====
-- src/frontends/cmdline/actions.c: the actions that send gcode and start a print.
use print3d.Prelude.{Bool, false, Option, none, some, List, [], ◌∷◌, ◌++◌, ◌==◌, if◌then◌else◌}
use print3d.Prelude.Int.{pos}
use print3d.Prelude.Text.{Bytes, codes}
use print3d.Cmdline.Options.{Written, to_stdout, print_error}
use print3d.Cmdline.Actions.{Comm, Done, attempt, finish}

unfoldable pub is_absolute_path : Bytes → Bool
is_absolute_path [] = false
is_absolute_path (c ∷ cs) = c == b'/'

-- The loop over read: what comes is appended, the end is nothing, and `none` is an error.
unfoldable pub read_stdin : List (Option Bytes) → Bytes → Option Bytes
read_stdin [] gcode = some gcode
read_stdin (none ∷ rest) gcode = none
read_stdin (some [] ∷ rest) gcode = some gcode
read_stdin (some (c ∷ cs) ∷ rest) gcode = read_stdin rest (gcode ++ (c ∷ cs))

module _ {S : Type 0} (comm : Comm S) (json_output : Bool) where
  unfoldable pub act_send_gcode_file : S → Bytes → Option (Done S)
  unfolding is_absolute_path
  act_send_gcode_file s file =
      if is_absolute_path file
      then attempt comm json_output (comm.clear_gcode s) (codes "could not clear gcode") (λ s1.
        attempt comm json_output (comm.send_gcode_file s1 file) (codes "could not send gcode file")
          (λ s2.
            attempt comm json_output (comm.start_print_gcode s2)
              (codes "sent gcode file, but could not start print")
              (λ s3. finish comm json_output s3 (codes "sent gcode file and started print\n") [])))
      else some (
        s,
        print_error json_output (codes "please supply an absolute path for the file to print"),
        pos 1,
      )

  -- The three steps behind the gcode, which is named in the messages.
  unfoldable pub act_send_gcode : S → Bytes → Option (Done S)
  act_send_gcode s gcode =
      attempt comm json_output (comm.clear_gcode s) (codes "could not clear gcode") (λ s1.
        attempt comm json_output (comm.send_gcode_data s1 gcode) (codes "could not send gcode")
          (λ s2.
            attempt comm json_output (comm.start_print_gcode s2)
              (codes "sent gcode, but could not start print")
              (λ s3. finish comm json_output s3 (codes "sent gcode and started print\n") [])))

  -- What was written before goes first.
  abbrev pub written_first : List Written → Option (Done S) → Option (Done S)
  written_first ws none = none
  written_first ws (some (s, more, code)) = some (s, ws ++ more, code)

  -- The text that is read has no terminator: `behind` is what stands in memory behind it, up to the
  -- next one. `failure` is the text of a read error.
  unfoldable pub act_send_gcode_from_stdin :
      S → List (Option Bytes) → Bytes → Bytes → Option (Done S)
  unfolding read_stdin
  act_send_gcode_from_stdin s stdin behind failure =
      attempt comm json_output (comm.clear_gcode s) (codes "could not clear gcode") (λ s1.
        written_first
          (if json_output
            then []
            else to_stdout (codes "Please enter gcode and finish with C-d...\n") ∷ [])
          (elim (read_stdin stdin []) [
            | none ↦ some (
              s1,
              print_error json_output
                  (codes "error reading from stdin (" ++ (failure ++ codes ")")),
              pos 1,
            )
            | some gcode ↦
                attempt comm json_output (comm.send_gcode_data s1 (gcode ++ behind))
                  (codes "could not send gcode data")
                  (λ s2.
                    attempt comm json_output (comm.start_print_gcode s2)
                      (codes "sent gcode data, but could not start print")
                      (λ s3.
                        finish comm json_output s3 (codes "sent gcode data and started print\n")
                          []))
          ]))
