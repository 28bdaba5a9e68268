-- ===== src/Cmdline/Options.antt =====
-- src/frontends/cmdline/fe_cmdline.c, parseOptions, printError, printJsonOk. What getopt_long answers
-- is an argument: the letters with the values of `optarg`.
use print3d.Prelude.{
  ℕ, zero, suc, Bool, true, false, Option, none, some, List, [], ◌∷◌, ◌++◌, ◌==◌, if◌then◌else◌,
  length, ltb,
}
use print3d.Prelude.Int.{ℤ, pos, negsuc}
use print3d.Prelude.Text.{Bytes, codes, bytes_eq}

-- ACTION_TYPE
pub data Action : Type 0 where
  at_none at_err_unknown at_err_missing at_err_invalid_get at_show_help : Action
  at_get_temperature at_get_test at_get_trx_test at_get_progress at_get_state : Action
  at_get_supported at_heatup at_print_file at_send_code at_send_stdin at_stop_print : Action

pub record Options : Type 0 where
  pub verbosity : ℤ
  pub json_output : Bool
  pub device_id : Option Bytes
  pub print_file : Option Bytes
  pub send_gcode : Option Bytes
  pub end_gcode : Option Bytes
  pub heatup_temperature : ℤ
  pub force_start : Bool
  pub optarg_save : Bytes
  pub device_id_required : Bool
  pub action : Action

abbrev pub no_options : Options
no_options = record {
  verbosity = pos 0;
  json_output = false;
  device_id = none;
  print_file = none;
  send_gcode = none;
  end_gcode = none;
  heatup_temperature = negsuc 0;
  force_start = false;
  optarg_save = [];
  device_id_required = false;
  action = at_none;
}

-- `-v`, and again
abbrev pub more_verbose : ℤ → ℤ
more_verbose (negsuc n) = pos 1
more_verbose (pos zero) = pos 1
more_verbose (pos (suc n)) = pos (suc (suc n))

-- An action that talks to a server.
abbrev pub with_device : Options → Action → Options
with_device o a = record o { action = a; device_id_required = true }

unfoldable pub parse_get : Options → Bytes → Options
unfolding bytes_eq
parse_get o optarg =
    if bytes_eq optarg (codes "temperature")
    then with_device o at_get_temperature
    else if bytes_eq optarg (codes "test")
    then with_device o at_get_test
    else if bytes_eq optarg (codes "trxtest")
    then with_device o at_get_trx_test
    else if bytes_eq optarg (codes "progress")
    then with_device o at_get_progress
    else record o { action = at_err_invalid_get; optarg_save = optarg }

module _ (atoi : Bytes → ℤ) where
  -- The switch on what getopt_long returned. A letter without a case does nothing.
  unfoldable pub parse_option : Options → ℕ → Bytes → Options
  unfolding parse_get
  parse_option o ch optarg =
      if ch == b'h'
      then record o { action = at_show_help }
      else if ch == b'q'
      then record o { verbosity = negsuc 0 }
      else if ch == b'v'
      then record o { verbosity = more_verbose o.verbosity }
      else if ch == b'j'
      then record o { json_output = true }
      else if ch == b'g'
      then parse_get o optarg
      else if ch == b't'
      then with_device o at_get_temperature
      else if ch == b'p'
      then with_device o at_get_progress
      else if ch == b's'
      then with_device o at_get_state
      else if ch == b'S'
      then record o { action = at_get_supported }
      else if ch == b'd'
      then record o { device_id = some optarg }
      else if ch == b'F'
      then record o { force_start = true }
      else if ch == b'w'
      then with_device (record o { heatup_temperature = atoi optarg }) at_heatup
      else if ch == b'f'
      then with_device (record o { print_file = some optarg }) at_print_file
      else if ch == b'c'
      then with_device (record o { send_gcode = some optarg }) at_send_code
      else if ch == b'r'
      then with_device o at_send_stdin
      else if ch == b'k'
      then with_device o at_stop_print
      else if ch == b'K'
      then with_device (record o { end_gcode = some optarg }) at_stop_print
      else if ch == b'?'
      then record o { action = at_err_unknown }
      else if ch == b':'
      then record o { action = at_err_missing }
      else o

  -- The loop over the options.
  unfoldable pub parse_each : Options → List (ℕ × Bytes) → Options
  unfolding parse_option
  parse_each o [] = o
  parse_each o ((ch, optarg) ∷ rest) = parse_each (parse_option o ch optarg) rest

  unfoldable pub parse_options : List (ℕ × Bytes) → Options
  unfolding parse_each
  parse_options given =
      let o = parse_each no_options given in
      if o.json_output then record o { verbosity = negsuc 0 } else o

-- What the client writes.
pub data Written : Type 0 where
  to_stdout : Bytes → Written
  to_stderr : Bytes → Written

-- The formatted message is the argument.
unfoldable pub print_error : Bool → Bytes → List Written
print_error output_as_json buf =
    if output_as_json
    then to_stdout (codes "{\"status\": \"ERR\", \"message\": \"" ++ (buf ++ codes "\"}")) ∷ []
    else to_stderr (codes "error: " ++ (buf ++ codes "\n")) ∷ []

-- No format is an empty text.
unfoldable pub print_json_ok : Bytes → List Written
print_json_ok buf =
    let comma = if ltb 0 (length buf) then codes ", " else [] in
    to_stdout (codes "{\"status\": \"OK\"" ++ (comma ++ (buf ++ codes "}"))) ∷ []
