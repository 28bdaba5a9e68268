-- ===== src/Server/Dispatch.antt =====
-- src/server/CommandHandler.cpp, runCommand; Client.cpp, runCommands.
use print3d.Prelude.{Bool, none, not, ◌&&◌, ℕ, zero, suc, Option, some, ◌==◌, if◌then◌else◌}
use print3d.Prelude.Int.{ℤ}
use print3d.Prelude.Text.{Bytes}
use print3d.Ipc.Codes.{
  test, get_temperature, gcode_clear, gcode_append, gcode_append_file, gcode_start_print,
  gcode_stop_print, heatup, get_progress, get_state,
}
use print3d.Ipc.Command.{cmd_get, cmd_is_complete, cmd_remove}
use print3d.Ipc.Stringify.{can_stringify}
use print3d.Server.Client.{Scene}
use print3d.Server.Handlers.{
  bind, hnd_test, hnd_get_temperature, hnd_gcode_clear, hnd_gcode_append, hnd_gcode_append_file,
  hnd_gcode_start_print, hnd_gcode_stop_print, hnd_heatup, hnd_get_progress, hnd_get_state,
}

-- A code without a handler does nothing, and gets no reply.
module _ (number : Bytes → ℤ) (read_file : Bytes → Option Bytes) (file_error : Bytes → Bytes) where
  unfoldable pub handle : ℕ → Scene → Bytes → Option Scene
  unfolding hnd_test hnd_get_temperature hnd_gcode_clear hnd_gcode_append hnd_gcode_append_file
      hnd_gcode_start_print hnd_gcode_stop_print hnd_heatup hnd_get_progress hnd_get_state
  handle code s buf =
      if code == test
      then hnd_test s buf
      else if code == get_temperature
      then hnd_get_temperature s buf
      else if code == gcode_clear
      then hnd_gcode_clear s
      else if code == gcode_append
      then hnd_gcode_append number s buf
      else if code == gcode_append_file
      then hnd_gcode_append_file number read_file file_error s buf
      else if code == gcode_start_print
      then hnd_gcode_start_print number s
      else if code == gcode_stop_print
      then hnd_gcode_stop_print number s buf
      else if code == heatup
      then hnd_heatup number s buf
      else if code == get_progress
      then hnd_get_progress s
      else if code == get_state
      then hnd_get_state s
      else some s

  -- At the log level `bulk`, the text of the command is made first, which may crash.
  unfoldable pub run_command : Bool → Scene → Bytes → Option Scene
  unfolding cmd_get handle can_stringify
  run_command bulk s buf =
      if not (can_stringify buf) && bulk then none else handle (cmd_get buf) s buf

-- The commands of a buffer, run one after the other by `run`: the scene after them, and the bytes
-- that are left. The handlers do not touch the buffer.
unfoldable pub run_commands :
    (Scene → Bytes → Option Scene) → ℕ → Scene → Bytes → Option (Scene × Bytes)
unfolding cmd_is_complete cmd_remove
run_commands run zero s buf = some (s, buf)
run_commands run (suc fuel) s buf =
    if cmd_is_complete buf == 0
    then some (s, buf)
    else bind (run s buf) (λ s'. run_commands run fuel s' (cmd_remove buf).0)
