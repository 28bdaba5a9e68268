-- ===== src/Cmdline/Main.antt =====
-- src/frontends/cmdline/fe_cmdline.c, main: the errors of the options, the choice of a device, and
-- the action. What getopt_long answers and what stands in /dev are arguments.
use print3d.Prelude.{
  ℕ, Bool, true, false, Option, none, some, List, [], ◌∷◌, ◌++◌, ◌==◌, if◌then◌else◌, ltb,
}
use print3d.Prelude.Int.{ℤ, pos, negsuc, is_nonneg}
use print3d.Prelude.Text.{Bytes, codes}
use print3d.Ipc.Devices.{DirEntry, DeviceList, find_devices}
use print3d.Cmdline.Options.{
  Action, at_err_unknown, at_err_missing, at_err_invalid_get, Options, Written, to_stdout,
  to_stderr, print_error, parse_options,
}
use print3d.Cmdline.Actions.{Comm}
use print3d.Cmdline.Dispatch.{World, Result, finished, crashed, misused, handle_action}

-- IPC_DEFAULT_DEVICE_ID
abbrev pub default_device_id : Bytes
default_device_id = codes "ttyACM0"

-- What getopt_long gives, the letter that it complains of, and the entries of /dev.
pub record Input : Type 0 where
  pub given : List (ℕ × Bytes)
  pub optopt : ℕ
  pub entries : Option (List DirEntry)

-- The client goes on, or exits, or reads behind the end of the list of devices.
pub data Choice : Type 0 where
  goes_on : Options → List Written → Choice
  exits : List Written → ℤ → Choice
  misreads : Choice

abbrev pub listed : List Bytes → List Written
listed [] = to_stderr (codes "\n") ∷ []
listed (item ∷ items) = to_stderr (codes " '" ++ (item ++ codes "'")) ∷ listed items

unfoldable pub several_devices : Bool → DeviceList → Choice
several_devices json l =
    if json
    then exits (print_error json (codes "more than one device found, please specify one of them"))
        (pos 1)
    else if l.is_terminated
    then exits
        (to_stderr
            (codes "more than one device found (listed below), please specify one the following:\n")
          ∷ listed l.names)
        (pos 1)
    else misreads

-- `verbosity > 0`
abbrev pub is_verbose : ℤ → Bool
is_verbose (negsuc n) = false
is_verbose (pos n) = ltb 0 n

unfoldable pub no_device : Options → Choice
no_device o =
    if o.force_start
    then goes_on (record o { device_id = some default_device_id })
        (if is_verbose o.verbosity
          then to_stdout (
              codes "no device specified and none found, using default ("
              ++ (default_device_id ++ codes ")\n"))
            ∷ []
          else [])
    else exits
        (print_error o.json_output (
          codes
            "no devices found, please connect a printer and start a server for it, or re-rerun with '-F'"))
        (pos 1)

abbrev pub among_devices : Options → DeviceList → List Bytes → Choice
among_devices o l [] = no_device o
among_devices o l (device ∷ []) = goes_on (record o { device_id = some device }) []
among_devices o l (device ∷ another ∷ more) = several_devices o.json_output l

abbrev pub choose_among : Options → Option DeviceList → Choice
choose_among o none =
    exits (print_error o.json_output (codes "could not obtain device list")) (pos 1)
choose_among o (some l) = among_devices o l l.names

-- A device is looked for only if one is needed and none is given.
abbrev pub choose_for : Options → Bool → Option Bytes → Option (List DirEntry) → Choice
choose_for o true none entries = choose_among o (find_devices entries)
choose_for o true (some device) entries = goes_on o []
choose_for o false device_id entries = goes_on o []

unfoldable pub choose_device : Options → Option (List DirEntry) → Choice
unfolding find_devices several_devices no_device
choose_device o entries = choose_for o o.device_id_required o.device_id entries

-- What stands behind the last slash, if there is one.
unfoldable pub behind_slash : Bytes → Option Bytes
behind_slash [] = none
behind_slash (c ∷ cs) = elim (behind_slash cs) [
  | none ↦ if c == b'/' then some cs else none
  | some s ↦ some s
]

unfoldable pub base_name : Bytes → Bytes
unfolding behind_slash
base_name s = elim (behind_slash s) [ none ↦ s | some t ↦ t ]

abbrev pub without_path : Option Bytes → Option Bytes
without_path none = none
without_path (some s) = some (base_name s)

-- A null pointer is printed so.
abbrev pub printed : Option Bytes → Bytes
printed none = codes "(null)"
printed (some s) = s

unfoldable pub banner : ℤ → List Written
banner v =
    let mode : Bytes =
      if is_verbose v
      then elim v [
        | pos n ↦ if ltb 1 n then codes " (bulk mode)" else codes " (verbose mode)"
        | negsuc n ↦ []
      ]
      else [] in
    if is_nonneg v
    then to_stdout (codes "Print3D command-line client" ++ (mode ++ codes "\n")) ∷ []
    else []

-- The message for options that cannot be used.
unfoldable pub refusal : Options → ℕ → Action → Option Bytes
refusal o optopt at_err_unknown =
    some (codes "invalid option '" ++ (optopt ∷ codes "' to executable, try -h"))
refusal o optopt at_err_missing =
    some (codes "option '" ++ (optopt ∷ codes "' to executable requires an argument, try -h"))
refusal o optopt at_err_invalid_get =
    some (codes "invalid parameter for -g option ('" ++ (o.optarg_save ++ codes "'), try -h"))
refusal o optopt _ = none

module _ {S : Type 0} (comm : Comm S) (world : World) where
  abbrev pub written_before : List Written → Result S → Result S
  written_before ws (finished (s, more, code)) = finished (s, ws ++ more, code)
  written_before ws crashed = crashed
  written_before ws misused = misused

  -- What follows the choice of a device.
  abbrev pub run_choice : S → Choice → Result S
  run_choice s misreads = misused
  run_choice s (exits ws code) = finished (s, ws, code)
  run_choice s (goes_on o ws) =
      let o' = record o { device_id = without_path o.device_id } in
      let using =
        if is_verbose o.verbosity
        then to_stdout (codes "Using device ID '" ++ (printed o'.device_id ++ codes "'\n")) ∷ []
        else [] in
      written_before (ws ++ using) (handle_action comm world s o')

  abbrev pub run_options : S → Options → Option (List DirEntry) → Option Bytes → Result S
  run_options s o entries (some message) = finished (s, print_error o.json_output message, pos 2)
  run_options s o entries none =
      written_before (banner o.verbosity) (run_choice s (choose_device o entries))

  unfoldable pub main : (Bytes → ℤ) → S → Input → Result S
  unfolding parse_options refusal choose_device banner base_name handle_action
  main atoi s i =
      let o = parse_options atoi i.given in run_options s o i.entries (refusal o i.optopt o.action)
