-- ===== src/Ipc/Codes.antt =====
-- src/ipc_shared.{h,c}: the command codes, and the table of their names and arguments.
use print3d.Prelude.{ℕ, Option, none, some, List, [], ◌∷◌, ◌==◌, if◌then◌else◌}
use print3d.Prelude.Text.{Bytes, codes}

abbrev pub invalid : ℕ
invalid = 0

abbrev pub no_command : ℕ
no_command = 1

abbrev pub test : ℕ
test = 0x10

abbrev pub get_temperature : ℕ
get_temperature = 0x11

abbrev pub gcode_clear : ℕ
gcode_clear = 0x12

abbrev pub gcode_append : ℕ
gcode_append = 0x13

abbrev pub gcode_append_file : ℕ
gcode_append_file = 0x14

abbrev pub gcode_start_print : ℕ
gcode_start_print = 0x15

abbrev pub gcode_stop_print : ℕ
gcode_stop_print = 0x16

abbrev pub heatup : ℕ
heatup = 0x17

abbrev pub get_progress : ℕ
get_progress = 0x18

abbrev pub get_state : ℕ
get_state = 0x19

abbrev pub reply_ok : ℕ
reply_ok = 0xE0

abbrev pub reply_error : ℕ
reply_error = 0xE1

abbrev pub not_implemented : ℕ
not_implemented = 0xE2

abbrev pub gcode_add_failed : ℕ
gcode_add_failed = 0xE3

abbrev pub retry_later : ℕ
retry_later = 0xE4

abbrev pub trx_cancelled : ℕ
trx_cancelled = 0xE5

-- A null reply format is `none`.
pub record CommandName : Type 0 where
  pub code : ℕ
  pub name : Bytes
  pub arg_fmt : Bytes
  pub reply_fmt : Option Bytes

abbrev request : ℕ → Bytes → Bytes → Bytes → CommandName
request c n a r = record { code = c; name = n; arg_fmt = a; reply_fmt = some r }

abbrev reply : ℕ → Bytes → Bytes → CommandName
reply c n a = record { code = c; name = n; arg_fmt = a; reply_fmt = none }

-- The table without its sentinel, which is the end of the list.
abbrev pub commands : List CommandName
commands =
    request invalid (codes "invalid") (codes "-") []
    ∷ request no_command (codes "none") (codes "-") []
    ∷ request test (codes "test") (codes "*") (codes "*")
    ∷ request get_temperature (codes "getTemperature") (codes "w") (codes "w")
    ∷ request gcode_clear (codes "gcodeClear") [] []
    ∷ request gcode_append (codes "gcodeAppend") (codes "*") []
    ∷ request gcode_append_file (codes "gcodeAppendFile") (codes "x") []
    ∷ request gcode_start_print (codes "gcodeStartPrint") [] []
    ∷ request gcode_stop_print (codes "gcodeStopPrint") (codes "x") []
    ∷ request heatup (codes "heatup") (codes "w") []
    ∷ request get_progress (codes "getProgress") [] (codes "WWWWWWW")
    ∷ request get_state (codes "getState") [] (codes "x")
    ∷ reply reply_ok (codes "ok") (codes "*")
    ∷ reply reply_error (codes "error") (codes "x")
    ∷ reply not_implemented (codes "not_implemented") (codes "*")
    ∷ reply gcode_add_failed (codes "gcode_add_failed") (codes "x")
    ∷ reply retry_later (codes "retry_later") (codes "*")
    ∷ reply trx_cancelled (codes "trx_cancelled") (codes "*")
    ∷ []

abbrev find_code : List CommandName → ℕ → Option CommandName
find_code [] code = none
find_code (d ∷ ds) code = if d.code == code then some d else find_code ds code

unfoldable pub find_command_description : ℕ → Option CommandName
find_command_description code = find_code commands code
