-- ===== src/Frontend/Requests.antt =====
-- src/frontends/communicator.c: the functions comm_*. What the server answers to a command, and what
-- becomes of it by that, is a parameter; a reply that does not come is `none`.
use print3d.Prelude.{ℕ, Option, none, some, List, [], ◌∷◌}
use print3d.Prelude.Int.{ℤ, pos}
use print3d.Prelude.Text.{Bytes}
use print3d.Ipc.Codes.{
  test, get_temperature, gcode_clear, gcode_append_file, gcode_start_print, gcode_stop_print,
  heatup, get_progress, get_state,
}
use print3d.Ipc.Command.{Arg, short, blob, construct_cmd, c_text}
use print3d.Frontend.Replies.{Handled, handle_basic_response}

module _ {S : Type 0} (send_and_receive : S → Option Bytes → S × Option Bytes) where
  -- A command, its reply, and the number of arguments that an `ok` must have.
  unfoldable pub ask : S → ℕ → List Arg → ℤ → Option (S × Option Bytes × Handled)
  unfolding construct_cmd handle_basic_response
  ask s code args expected =
      let answered = send_and_receive s (construct_cmd code args) in
      elim (handle_basic_response answered.1 expected) [
        | none ↦ none
        | some h ↦ some (answered.0, answered.1, h)
      ]

  unfoldable pub ask_clear_gcode : S → Option (S × Option Bytes × Handled)
  unfolding ask
  ask_clear_gcode s = ask s gcode_clear [] (pos 0)

  unfoldable pub start_print_gcode : S → Option (S × Option Bytes × Handled)
  unfolding ask
  start_print_gcode s = ask s gcode_start_print [] (pos 0)

  -- No end code is an empty one.
  unfoldable pub stop_print_gcode : S → Option Bytes → Option (S × Option Bytes × Handled)
  unfolding ask c_text
  stop_print_gcode s none = ask s gcode_stop_print (blob [] ∷ []) (pos 0)
  stop_print_gcode s (some endcode) = ask s gcode_stop_print (blob (c_text endcode) ∷ []) (pos 0)

  unfoldable pub send_gcode_file : S → Bytes → Option (S × Option Bytes × Handled)
  unfolding ask c_text
  send_gcode_file s file = ask s gcode_append_file (blob (c_text file) ∷ []) (pos 0)

  unfoldable pub heat_up : S → ℤ → Option (S × Option Bytes × Handled)
  unfolding ask
  heat_up s temperature = ask s heatup (short temperature ∷ []) (pos 0)

  unfoldable pub ask_temperature : S → ℤ → Option (S × Option Bytes × Handled)
  unfolding ask
  ask_temperature s which = ask s get_temperature (short which ∷ []) (pos 1)

  unfoldable pub ask_progress : S → Option (S × Option Bytes × Handled)
  unfolding ask
  ask_progress s = ask s get_progress [] (pos 7)

  unfoldable pub ask_state : S → Option (S × Option Bytes × Handled)
  unfolding ask
  ask_state s = ask s get_state [] (pos 1)

  unfoldable pub test_command : S → Option Bytes → Option (S × Option Bytes × Handled)
  unfolding ask c_text
  test_command s none = ask s test [] (pos 1)
  test_command s (some question) = ask s test (blob (c_text question) ∷ []) (pos 1)
