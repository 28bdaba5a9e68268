-- ===== src/Frontend/Results.antt =====
-- src/frontends/communicator.c: what the functions comm_* take from a reply that is ok. The values
-- that they store are a list, in the order of their arguments; `none` is a read past the end.
use print3d.Prelude.{ℕ, zero, suc, ◌+◌, Option, none, some, List, [], ◌∷◌, if◌then◌else◌}
use print3d.Prelude.Int.{ℤ, pos, negsuc, is_nonneg}
use print3d.Prelude.Text.{Bytes}
use print3d.Ipc.Command.{
  found, no_arg, past_end, cmd_get_short_arg, cmd_get_long_arg, cmd_get_string_arg, c_text,
}
use print3d.Frontend.Replies.{Handled}
use print3d.Frontend.Requests.{ask_temperature, ask_progress, ask_state, test_command}

-- So many numbers from an index on, until one is missing: the last return value, and the values.
unfoldable pub read_longs : ℕ → ℕ → Bytes → Option (ℤ × List ℤ)
unfolding cmd_get_long_arg
read_longs zero i rcmd = some (pos 0, [])
read_longs (suc n) i rcmd =
    let rest = read_longs n (i + 1) rcmd in
    elim (cmd_get_long_arg rcmd i) [
      | found v ↦ elim rest [ none ↦ none | some r ↦ some (r.0, v ∷ r.1) ]
      | no_arg ↦ some (negsuc 1, [])
      | past_end ↦ none
    ]

unfoldable pub read_short : Bytes → Option (ℤ × List ℤ)
unfolding cmd_get_short_arg
read_short rcmd = elim (cmd_get_short_arg rcmd 0) [
  | found v ↦ some (pos 0, v ∷ [])
  | no_arg ↦ some (negsuc 1, [])
  | past_end ↦ none
]

unfoldable pub read_text : Bytes → Option (ℤ × List Bytes)
unfolding cmd_get_string_arg c_text
read_text rcmd = elim (cmd_get_string_arg rcmd 0) [
  | found v ↦ some (pos 0, c_text v ∷ [])
  | no_arg ↦ some (negsuc 1, [])
  | past_end ↦ none
]

module _ {S A : Type 0} where
  abbrev pub with_state : S → Option (ℤ × List A) → Option (S × ℤ × List A)
  with_state s none = none
  with_state s (some (rv, values)) = some (s, rv, values)

  -- A reply that is not ok gives the return value.
  abbrev pub then_read :
      (Bytes → Option (ℤ × List A)) → Option (S × Option Bytes × Handled) → Option (S × ℤ × List A)
  then_read read none = none
  then_read read (some (s, none, h)) = some (s, h.result, [])
  then_read read (some (s, some rcmd, h)) =
      if is_nonneg h.result then with_state s (read rcmd) else some (s, h.result, [])

module _ {S : Type 0} (send_and_receive : S → Option Bytes → S × Option Bytes) where
  unfoldable pub comm_get_temperature : S → ℤ → Option (S × ℤ × List ℤ)
  unfolding ask_temperature read_short
  comm_get_temperature s which = then_read read_short (ask_temperature send_and_receive s which)

  unfoldable pub comm_get_progress : S → Option (S × ℤ × List ℤ)
  unfolding ask_progress read_longs
  comm_get_progress s = then_read (read_longs 7 0) (ask_progress send_and_receive s)

  unfoldable pub comm_get_state : S → Option (S × ℤ × List Bytes)
  unfolding ask_state read_text
  comm_get_state s = then_read read_text (ask_state send_and_receive s)

  unfoldable pub comm_test_command : S → Option Bytes → Option (S × ℤ × List Bytes)
  unfolding test_command read_text
  comm_test_command s question = then_read read_text (test_command send_and_receive s question)
