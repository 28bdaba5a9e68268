-- ===== src/Driver/State.antt =====
-- src/drivers/AbstractDriver.{h,cpp}, MarlinDriver.h: the members of a driver, and the operations
-- that read or change its state. The serial port is what was sent to it, in order.
use print3d.Prelude.{
  ℕ, ◌+◌, ◌-◌, Bool, true, false, Option, none, some, List, [], ltb, if◌then◌else◌, length, take,
  drop,
}
use print3d.Prelude.Int.{ℤ, pos}
use print3d.Prelude.Text.{Bytes, codes, lf, find, rfind_text}
use print3d.Ipc.Wire.{to_uint16}
use print3d.GcodeBuffer.State.{GcodeBuffer, new}

pub data State : Type 0 where
  unknown disconnected connecting idle buffering printing stopping : State

unfoldable pub state_name : State → Bytes
state_name unknown = codes "unknown"
state_name disconnected = codes "disconnected"
state_name connecting = codes "connecting"
state_name idle = codes "idle"
state_name buffering = codes "buffering"
state_name printing = codes "printing"
state_name stopping = codes "stopping"

pub record Driver : Type 0 where
  pub heating : Bool
  pub temperature : ℕ
  pub target_temperature : ℕ
  pub bed_temperature : ℕ
  pub target_bed_temperature : ℕ
  pub state : State
  pub gcode_buffer : GcodeBuffer
  pub is_open : Bool
  pub sent : List Bytes
  pub check_temperature_interval : ℤ
  pub check_connection : Bool
  pub check_temperature_attempt : ℕ

-- the constructors of the two classes
abbrev pub new_driver : Driver
new_driver = record {
  heating = false;
  temperature = 0;
  target_temperature = 0;
  bed_temperature = 0;
  target_bed_temperature = 0;
  state = disconnected;
  gcode_buffer = new;
  is_open = false;
  sent = [];
  check_temperature_interval = pos 5000;
  check_connection = true;
  check_temperature_attempt = 0;
}

abbrev pub set_state : Driver → State → Driver
set_state d s = record d { state = s }

unfoldable pub is_online_state : State → Bool
is_online_state unknown = false
is_online_state disconnected = false
is_online_state connecting = false
is_online_state _ = true

unfoldable pub is_printer_online : Driver → Bool
unfolding is_online_state
is_printer_online d = is_online_state d.state

-- `s == PRINTING || s == STOPPING`
unfoldable pub is_printing : State → Bool
is_printing printing = true
is_printing stopping = true
is_printing _ = false

-- `s == BUFFERING || s == PRINTING || s == STOPPING`
unfoldable pub is_busy : State → Bool
is_busy buffering = true
is_busy printing = true
is_busy stopping = true
is_busy _ = false

-- The end of a number: the next newline, or else the next space.
unfoldable pub number_end : Bytes → ℕ → Option ℕ
unfolding find
number_end code start = elim (find code lf start) [ none ↦ find code b' ' start | some e ↦ some e ]

unfoldable pub number_text : Bytes → ℕ → Option ℕ → Bytes
number_text code start none = drop start code
number_text code start (some e) = take (e - start) (drop start code)

abbrev pub set_targets : Driver → Option ℕ → Option ℕ → Option Driver
set_targets d (some t) (some b) =
    some (record d { target_temperature = t; target_bed_temperature = b })
set_targets d (some t) none = none
set_targets d none b = none

-- `number` is the `int` that `atof` of a text converts to.
module _ (number : Bytes → ℤ) where
  -- `none` is the exception of a `substr` behind the end of the text.
  unfoldable pub find_number : Bytes → ℕ → Option ℤ
  unfolding number_end number_text
  find_number code start =
      if ltb (length code) start
      then none
      else some (number (number_text code start (number_end code start)))

  -- The target that the last such command sets, or the old one if there is none.
  unfoldable pub last_target : Bytes → Bytes → ℕ → Option ℕ
  unfolding find_number rfind_text to_uint16
  last_target command gcode old = elim (rfind_text gcode command) [
    | none ↦ some old
    | some p ↦ elim (find_number gcode (p + 6)) [ none ↦ none | some v ↦ some (to_uint16 v) ]
  ]

  unfoldable pub extract_gcode_info : Driver → Bytes → Option Driver
  unfolding last_target
  extract_gcode_info d gcode =
      set_targets d (last_target (codes "M109") gcode d.target_temperature)
        (last_target (codes "M190") gcode d.target_bed_temperature)
