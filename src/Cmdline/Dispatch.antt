-- ===== src/Cmdline/Dispatch.antt =====
-- src/frontends/cmdline/actions.c, handleAction.
use print3d.Prelude.{Bool, true, false, Option, none, some, List, [], ◌∷◌, ◌++◌, if◌then◌else◌}
use print3d.Prelude.Int.{ℤ, pos, is_nonneg}
use print3d.Prelude.Text.{Bytes, codes}
use print3d.Cmdline.Options.{
  Action, at_none, at_err_unknown, at_err_missing, at_err_invalid_get, at_show_help,
  at_get_temperature, at_get_test, at_get_trx_test, at_get_progress, at_get_state, at_get_supported,
  at_heatup, at_print_file, at_send_code, at_send_stdin, at_stop_print, Options, Written, to_stdout,
  print_error, print_json_ok,
}
use print3d.Cmdline.Actions.{
  Comm, Done, say, act_print_temperature, act_print_test_response, act_test_transactions,
}
use print3d.Cmdline.Sending.{
  written_first, is_absolute_path, act_send_gcode_file, act_send_gcode, act_send_gcode_from_stdin,
}
use print3d.Cmdline.Queries.{act_print_progress, act_print_state, act_do_heatup, act_stop_print}

-- What an action takes from its surroundings: the program's name, what is read from stdin and stands
-- in memory behind it, the text of a read error, the variable without an initial value, and what
-- printf makes of an address and of a fraction.
pub record World : Type 0 where
  pub program : Bytes
  pub stdin : List (Option Bytes)
  pub behind : Bytes
  pub failure : Bytes
  pub heating : ℤ
  pub address : Bytes
  pub percent : ℤ → ℤ → Bytes

abbrev pub opens_socket : Action → Bool
opens_socket at_get_temperature = true
opens_socket at_get_test = true
opens_socket at_get_progress = true
opens_socket at_get_state = true
opens_socket at_heatup = true
opens_socket at_print_file = true
opens_socket at_send_code = true
opens_socket at_send_stdin = true
opens_socket at_stop_print = true
opens_socket _ = false

unfoldable pub usage : Bytes → List Written
usage program =
    to_stdout (codes "Basic usage: '" ++ (program ++ codes " [<options>]'.\n"))
    ∷ to_stdout (codes "The following options are available:\n")
    ∷ to_stdout (codes "\t-h,--help\t\tShow this help message\n")
    ∷ to_stdout (codes "\t-q,--quiet\t\tDo not print any output\n")
    ∷ to_stdout (
        codes
          "\t-v,--verbose\t\tPrint verbose output (repeat to enable bulk mode; default: log only errors and warnings)\n")
    ∷ to_stdout (codes "\t-j,--json\t\tEmit only JSON output (verbosity will be set to quiet)\n")
    ∷ to_stdout (
        codes
          "\t-g,--get <parm>\t\tRetrieve the given parameter(s) (temperature|test|trxtest|progress)\n")
    ∷ to_stdout (codes "\t-t,--temperature\tRetrieve the printer temperature\n")
    ∷ to_stdout (codes "\t-p,--progress\t\tRetrieve printing progress\n")
    ∷ to_stdout (codes "\t-s,--state\t\tQuery the printer state\n")
    ∷ to_stdout (codes "\t-S,--supported\t\tRetrieve a list of supported printers\n")
    ∷ to_stdout (codes "\t-d,--device <dev-id>\tPrint to the given device-id\n")
    ∷ to_stdout
        (codes "\t-F,--force-run\t\tForce running with a default device if none could be found\n")
    ∷ to_stdout (
        codes
          "\t-w,--heatup <temp>\tAsk the printer to heatup to the given temperature (degrees celcius)\n")
    ∷ to_stdout (codes "\t-f,--gcode-file <file>\tPrint the given g-code file\n")
    ∷ to_stdout (codes "\t-c,--gcode <gcode>\tPrint the specified line(s) of g-code\n")
    ∷ to_stdout
        (codes "\t-r,--stdin\t\tPrint g-code read from stdin (end interactive input with C-d)\n")
    ∷ to_stdout (codes "\t-k,--stop\t\tStop printing\n")
    ∷ to_stdout (codes "\t-K,--stop-with-code <gcode> Stop printing, with specified end code\n")
    ∷ []

-- How the client ends: with what it wrote and its exit code, by a crash inside the communicator, or
-- by a pointer of its own that is null or behind its array.
pub data Result (S : Type 0) : Type 0 where
  finished : Done S → Result S
  crashed : Result S
  misused : Result S

abbrev pub result_of : {S : Type 0} → Option (Done S) → Result S
result_of none = crashed
result_of (some d) = finished d

module _ {S : Type 0} (comm : Comm S) (world : World) where
  -- A file that is not absolute is refused here, and again by the action.
  abbrev pub print_given_file : Bool → S → Option Bytes → Result S
  print_given_file json s none = misused
  print_given_file json s (some file) =
      let done = act_send_gcode_file comm json s file in
      result_of (
        if is_absolute_path file
        then done
        else written_first comm json
            (print_error json (codes "please supply an absolute path for the file to print")) done)

  abbrev pub send_given_gcode : Bool → S → Option Bytes → Option (Done S)
  send_given_gcode json s none =
      some (s, print_error json (codes "error: missing g-code to print"), pos 1)
  send_given_gcode json s (some gcode) = act_send_gcode comm json s gcode

  abbrev pub not_handled : Bool → S → Done S
  not_handled json s = (
    s,
    print_error json (
        codes
          "Action handler called with 'unknown', 'missing' or 'invalid_get' action, this should not happen."),
    pos 2,
  )

  abbrev pub show_help : Bool → S → Done S
  show_help json s =
      if json
      then (s, print_json_ok (codes "\"message\": \"help requested, ignored in JSON mode\""), pos 0)
      else (s, usage world.program, pos 2)

  -- The second switch, behind the opening of the socket.
  abbrev pub act : Options → S → Action → Result S
  act o s at_err_unknown = finished (not_handled o.json_output s)
  act o s at_err_missing = finished (not_handled o.json_output s)
  act o s at_err_invalid_get = finished (not_handled o.json_output s)
  act o s at_none = finished (show_help o.json_output s)
  act o s at_show_help = finished (show_help o.json_output s)
  act o s at_get_temperature = result_of (act_print_temperature comm o.json_output s world.heating)
  act o s at_get_test = result_of (act_print_test_response comm o.json_output s)
  act o s at_get_trx_test =
      result_of (act_test_transactions comm o.json_output s o.device_id world.address)
  act o s at_get_progress = result_of (act_print_progress comm o.json_output s world.percent)
  act o s at_get_state = result_of (act_print_state comm o.json_output s)
  act o s at_get_supported = finished (
    s,
    say o.json_output (codes "[dummy] unimplemented: get supported\n")
        (codes "\"message\": \"unimplemented: get supported\""),
    pos 5,
  )
  act o s at_heatup = result_of (act_do_heatup comm o.json_output s o.heatup_temperature)
  act o s at_print_file = print_given_file o.json_output s o.print_file
  act o s at_send_code = result_of (send_given_gcode o.json_output s o.send_gcode)
  act o s at_send_stdin =
      result_of
        (act_send_gcode_from_stdin comm o.json_output s world.stdin world.behind world.failure)
  act o s at_stop_print = result_of (act_stop_print comm o.json_output s o.end_gcode)

  abbrev pub act_opened : Options → Option (S × ℤ) → Result S
  act_opened o none = crashed
  act_opened o (some (s, rv)) =
      if is_nonneg rv
      then act o s o.action
      else finished (
        s,
        print_error o.json_output (codes "could not open socket (run in verbose mode for details)"),
        pos 1,
      )

  unfoldable pub handle_action : S → Options → Result S
  unfolding act_print_temperature act_print_test_response act_test_transactions act_send_gcode_file
      act_send_gcode act_send_gcode_from_stdin act_print_progress act_print_state act_do_heatup
      act_stop_print is_absolute_path usage
  handle_action s o =
      if opens_socket o.action
      then act_opened o (comm.open_socket s o.device_id)
      else act o s o.action
