-- ===== src/Driver/Update.antt =====
-- src/drivers/MarlinDriver.cpp, update: the turn of the server's loop. `none` is a crash.
use print3d.Prelude.{
  ℕ, zero, suc, ◌+◌, ◌-◌, ◌*◌, ◌/◌, Bool, not, ◌&&◌, ◌||◌, Option, none, some, ltb, if◌then◌else◌,
  length,
}
use print3d.Prelude.Int.{ℤ, pos, negsuc, sub_ℕ, ◌-ℤ◌, ◌*ℤ◌, ltb_ℤ, eq_ℤ}
use print3d.Prelude.Text.{Bytes}
use print3d.Driver.State.{Driver, is_printing}
use print3d.Driver.Port.{Outcome, value, minus_two, minus_one}
use print3d.Driver.Response.{read_response_code, temperature_due}
use print3d.Driver.Serial.{extract_line}
use print3d.Driver.Connection.{Marlin, Ran, ran, crashed, exited, read_data}

abbrev pub update_interval : ℕ
update_interval = 200

-- The clock, in microseconds, at the places of update that read it, in their order.
pub record Readings : Type 0 where
  pub at_temperature : ℕ
  pub at_temperature_start : ℕ
  pub at_timer : ℕ
  pub at_start : ℕ
  pub at_end : ℕ

-- `timer.getElapsedTimeInMilliSec() > interval`
unfoldable pub is_elapsed : ℕ → ℕ → ℤ → Bool
unfolding ◌*ℤ◌
is_elapsed now start interval = ltb_ℤ (interval *ℤ pos 1000) (sub_ℕ now start)

-- Milliseconds as an `int`, which cuts towards 0.
unfoldable pub to_millis : ℤ → ℤ
to_millis (pos n) = pos (n / 1000)
to_millis (negsuc n) = if ltb n 999 then pos 0 else negsuc ((n + 1) / 1000 - 1)

-- `UPDATE_INTERVAL - timer_.getElapsedTimeInMilliSec()`
unfoldable pub time_left : ℕ → ℕ → ℤ
unfolding to_millis ◌-ℤ◌
time_left now start = to_millis (pos (update_interval * 1000) -ℤ sub_ℕ now start)

unfoldable pub is_temperature_due : Marlin → Readings → Bool
unfolding is_elapsed
is_temperature_due m t =
    not (eq_ℤ m.base.check_temperature_interval (negsuc 0))
    && is_elapsed t.at_temperature m.temperature_timer_start m.base.check_temperature_interval

unfoldable pub is_read_due : Driver → ℕ → Readings → Bool
unfolding is_elapsed is_printing
is_read_due d start t = is_printing d.state || is_elapsed t.at_timer start (pos update_interval)

abbrev pub then_restart : ℕ → Ran Marlin → Ran Marlin
then_restart now (ran m) = ran (record m { timer_start = now })
then_restart now crashed = crashed
then_restart now (exited m) = exited m

abbrev pub then_ask_again : ℕ → Ran Marlin → Ran (ℤ × Marlin)
then_ask_again now (ran m) = ran (time_left now m.timer_start, m)
then_ask_again now crashed = crashed
then_ask_again now (exited m) = exited m

-- What is left of the read buffer once its lines are taken.
abbrev pub store_rest : Marlin → Option (Driver × Bytes) → Option Marlin
store_rest m none = none
store_rest m (some (d, rest)) = some (record m { base = d; read_buffer = rest })

abbrev pub ran_or_crashed : Option Marlin → Ran Marlin
ran_or_crashed none = crashed
ran_or_crashed (some m) = ran m

abbrev pub then_run {ℓ} : {A : Type ℓ} → Option Marlin → (Marlin → A) → A → A
then_run none f failed = failed
then_run (some m) f failed = f m

module _ (number : Bytes → ℤ) where
  -- The loop over the lines in the read buffer, and what is left in it.
  unfoldable pub take_lines : ℕ → Driver → Bytes → Option (Driver × Bytes)
  unfolding read_response_code extract_line
  take_lines zero d buf = some (d, buf)
  take_lines (suc fuel) d buf = elim (extract_line buf) [
    | none ↦ some (d, buf)
    | some (line, rest) ↦ elim (read_response_code number d line) [
      | none ↦ none
      | some e ↦ take_lines fuel e rest
    ]
  ]

  -- Only if something was read are there lines to take.
  unfoldable pub take_read : Outcome → Marlin → Option Marlin
  unfolding take_lines
  take_read (value zero) m = some m
  take_read (value (suc n)) m =
      store_rest m (take_lines (length m.read_buffer) m.base m.read_buffer)
  take_read minus_two m = some m
  take_read (minus_one e) m = some m

  abbrev pub then_take : Ran (Outcome × Marlin) → Ran Marlin
  then_take (ran (o, m)) = ran_or_crashed (take_read o m)
  then_take crashed = crashed
  then_take (exited m) = exited m

  unfoldable pub temperature_turn : Marlin → Readings → Option Marlin
  unfolding is_temperature_due temperature_due
  temperature_turn m t =
      if is_temperature_due m t
      then elim (temperature_due number m.base) [
        | none ↦ none
        | some d ↦ some (record m { base = d; temperature_timer_start = t.at_temperature_start })
      ]
      else some m

  unfoldable pub read_turn : Marlin → Readings → ℤ → Ran Marlin
  unfolding is_read_due read_data take_read
  read_turn m t closed =
      if is_read_due m.base m.timer_start t
      then then_restart t.at_start (then_take (read_data m closed))
      else ran m

  -- The milliseconds to the next call, or -1 without a connection. `closed` is what close(2)
  -- answers, if it is called.
  unfoldable pub update : Marlin → Readings → ℤ → Ran (ℤ × Marlin)
  unfolding temperature_turn read_turn time_left
  update m t closed =
      if m.base.is_open
      then then_run (temperature_turn m t) (λ m'. then_ask_again t.at_end (read_turn m' t closed))
          crashed
      else ran (negsuc 0, m)
