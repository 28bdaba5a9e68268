-- ===== src/Ipc/Stringify.antt =====
-- src/ipc_shared.c, ipc_stringify_cmd, as to whether it crashes: the command has no description, or an
-- argument is shorter than what is read of it. The text itself, which is logged, is left out.
use print3d.Prelude.{
  ℕ, zero, suc, Bool, true, false, ◌&&◌, Option, none, some, [], ◌∷◌, ◌==◌, if◌then◌else◌,
}
use print3d.Prelude.Text.{Bytes}
use print3d.Ipc.Codes.{find_command_description}
use print3d.Ipc.Command.{
  Access, found, no_arg, past_end, cmd_get, cmd_num_args, cmd_get_string_arg, cmd_get_short_arg,
  cmd_get_long_arg,
}

abbrev pub is_found : {A : Type 0} → Access A → Bool
is_found (found a) = true
is_found no_arg = false
is_found past_end = false

-- The switch on the specifier of an argument.
unfoldable pub is_readable : ℕ → Bytes → ℕ → Bool
unfolding cmd_get_string_arg cmd_get_short_arg cmd_get_long_arg
is_readable specifier buf i =
    if specifier == b'w'
    then is_found (cmd_get_short_arg buf i)
    else if specifier == b'W'
    then is_found (cmd_get_long_arg buf i)
    else if specifier == b'x'
    then is_found (cmd_get_string_arg buf i)
    else true

-- The arguments from an index on. `fmt_idx++` is never reached, so that the first specifier stands for
-- all of them.
unfoldable pub are_readable : ℕ → ℕ → ℕ → Bytes → Bool
unfolding is_readable
are_readable zero i specifier buf = true
are_readable (suc n) i specifier buf =
    is_readable specifier buf i && are_readable n (suc i) specifier buf

-- Without a specifier the loop ends at once.
abbrev pub fit_format : Option ℕ → Bytes → Bytes → Bool
fit_format none fmt buf = true
fit_format (some n) [] buf = true
fit_format (some n) (specifier ∷ fmt) buf = are_readable n 0 specifier buf

unfoldable pub can_stringify : Bytes → Bool
unfolding cmd_get cmd_num_args find_command_description are_readable
can_stringify buf = elim (find_command_description (cmd_get buf)) [
  | none ↦ false
  | some d ↦ fit_format (cmd_num_args buf) d.arg_fmt buf
]
