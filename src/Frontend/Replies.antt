-- ===== src/Frontend/Replies.antt =====
-- src/frontends/communicator.c, handleBasicResponse: what a reply of the server means. `none` is an
-- error message that is read although the reply has none.
use print3d.Prelude.{Option, none, some, ◌++◌, ◌==◌, if◌then◌else◌}
use print3d.Prelude.Int.{ℤ, pos, negsuc, eq_ℤ}
use print3d.Prelude.Text.{Bytes, codes}
use print3d.Ipc.Codes.{reply_ok, reply_error, gcode_add_failed, retry_later, trx_cancelled}
use print3d.Ipc.Command.{found, no_arg, past_end, cmd_get, cmd_num_args, cmd_get_string_arg, c_text}

-- The return value, and the error text that is set, if one is.
pub record Handled : Type 0 where
  pub result : ℤ
  pub error : Option Bytes

abbrev pub handled : ℤ → Option Bytes → Handled
handled r e = record { result = r; error = e }

-- An argument count of a reply is what was expected; -2 stands for a reply that is too short.
unfoldable pub has_args : Bytes → ℤ → Handled
unfolding cmd_num_args
has_args rcmd expected =
    let n : ℤ = elim (cmd_num_args rcmd) [ none ↦ negsuc 1 | some k ↦ pos k ] in
    if eq_ℤ n expected then handled (pos 0) none else handled (negsuc 0) none

unfoldable pub error_text : Bytes → (Bytes → Handled) → Option Handled
unfolding cmd_get_string_arg c_text
error_text rcmd f = elim (cmd_get_string_arg rcmd 0) [
  | found s ↦ some (f (c_text s))
  | no_arg ↦ none
  | past_end ↦ none
]

-- A reply that did not come is `none`. The text of an error is taken to have no conversions.
unfoldable pub handle_basic_response : Option Bytes → ℤ → Option Handled
unfolding cmd_get has_args error_text
handle_basic_response none expected = some (handled (negsuc 0) none)
handle_basic_response (some rcmd) expected =
    let code = cmd_get rcmd in
    if code == reply_ok
    then some (has_args rcmd expected)
    else if code == reply_error
    then error_text rcmd
        (λ m. handled (negsuc 0) (some (codes "server returned error (" ++ (m ++ codes ")"))))
    else if code == gcode_add_failed
    then error_text rcmd (λ m. handled (negsuc 1) (some m))
    else if code == trx_cancelled
    then some (handled (negsuc 2) (some (codes "transaction_cancelled")))
    else if code == retry_later
    then some (handled (negsuc 3) (some (codes "retry_later")))
    else some (handled (negsuc 0) (some (codes "server returned unexpected response")))
