-- ===== src/Cmdline/Queries.antt =====
-- src/frontends/cmdline/actions.c: the actions that ask for the progress and the state, heat up, and
-- stop a print.
use print3d.Prelude.{bind, ℕ, Bool, Option, none, some, List, [], ◌∷◌, ◌++◌, if◌then◌else◌, length}
use print3d.Prelude.Int.{ℤ, pos, negsuc, is_nonneg, eq_ℤ}
use print3d.Prelude.Text.{Bytes, codes}
use print3d.Driver.Print.{decimal}
use print3d.Cmdline.Options.{Written, to_stdout, print_json_ok}
use print3d.Cmdline.Actions.{Comm, Done, stored_at, say, with_error, attempt, finish}

-- The seven numbers, each -2^31 if it was not stored, as printf writes them.
abbrev pub shown : List ℤ → ℕ → Bytes
shown values i = decimal (stored_at (negsuc 2147483647) values i)

-- `percent a b` is `a / b * 100` as a float, with one decimal.
unfoldable pub progress_text : (ℤ → ℤ → Bytes) → List ℤ → List Written
unfolding decimal
progress_text percent vs =
    let value : ℕ → ℤ = stored_at (negsuc 2147483647) vs in
    to_stdout (
      codes "print progress: "
      ++ (shown vs 0
          ++ (codes " of "
              ++ (shown vs 2 ++ (codes " lines (" ++ (shown vs 1 ++ codes " buffered)"))))))
    ∷ ((if eq_ℤ (value 2) (pos 0)
          then []
          else to_stdout (codes " (" ++ (percent (value 0) (value 2) ++ codes "%)")) ∷ [])
        ++ (to_stdout (
              codes ", at capacity "
              ++ (shown vs 3
                  ++ (codes " of "
                      ++ (shown vs 4
                          ++ (codes " bytes max ("
                              ++ (percent (value 3) (value 4)
                                  ++ (codes "%); sequence number/total: "
                                      ++ (shown vs 5
                                          ++ (codes "/" ++ (shown vs 6 ++ codes "\n"))))))))))
            ∷ []))

unfoldable pub progress_members : List ℤ → Bytes
unfolding decimal
progress_members vs =
    codes "\"progress\": {\"current\": "
    ++ (shown vs 0
        ++ (codes ", \"total\": "
            ++ (shown vs 2
                ++ (codes ", \"buffered\": "
                    ++ (shown vs 1
                        ++ (codes ", \"buffer_size\": "
                            ++ (shown vs 3
                                ++ (codes ", \"max_buffer_size\": "
                                    ++ (shown vs 4
                                        ++ (codes ", \"sequence_number\": "
                                            ++ (shown vs 5
                                                ++ (codes ", \"sequence_total\": "
                                                    ++ (shown vs 6 ++ codes "}")))))))))))))

module _ {S : Type 0} (comm : Comm S) (json_output : Bool) where
  unfoldable pub act_print_progress : S → (ℤ → ℤ → Bytes) → Option (Done S)
  unfolding progress_text progress_members
  act_print_progress s percent = bind (comm.get_progress s) (λ r.
      attempt comm json_output (some (r.0, r.1)) (codes "could not get printing progress") (λ s1.
        some (
          comm.close_socket s1,
          if json_output then print_json_ok (progress_members r.2) else progress_text percent r.2,
          pos 0,
        )))

  unfoldable pub act_print_state : S → Option (Done S)
  act_print_state s = bind (comm.get_state s) (λ r.
      attempt comm json_output (some (r.0, r.1)) (codes "could not get printer state") (λ s1.
        finish comm json_output s1 (codes "printer state: '" ++ (r.2 ++ codes "'\n"))
          (codes "\"printer_state\": \"" ++ (r.2 ++ codes "\""))))

  -- The socket is closed whatever the answer is.
  abbrev pub after_close : Option (S × ℤ) → Bytes → List Written → Option (Done S)
  after_close none what ws = none
  after_close (some (s, rv)) what ws =
      let s1 = comm.close_socket s in
      some
        (if is_nonneg rv then (s1, ws, pos 0) else (s1, with_error comm json_output s1 what, pos 1))

  unfoldable pub act_do_heatup : S → ℤ → Option (Done S)
  unfolding decimal
  act_do_heatup s temperature =
      after_close (comm.heat_up s temperature) (codes "could not request printer heatup") (
        say json_output
          (codes "requested printer heatup to "
            ++ (decimal temperature ++ codes " degrees celcius\n"))
          (codes "\"target_temperatures\": {\"hotend\": " ++ (decimal temperature ++ codes "}")))

  abbrev pub stop_text : Option Bytes → Bytes
  stop_text none = codes "requested printing stop\n"
  stop_text (some end_code) =
      codes "requested printing stop with "
      ++ (decimal (pos (length end_code)) ++ codes " bytes of end code\n")

  abbrev pub end_code_size : Option Bytes → ℕ
  end_code_size none = 0
  end_code_size (some end_code) = length end_code

  unfoldable pub act_stop_print : S → Option Bytes → Option (Done S)
  unfolding decimal
  act_stop_print s end_code =
      after_close (comm.stop_print_gcode s end_code) (codes "could not request printing stop") (
        say json_output (stop_text end_code)
          (codes "\"end_code_size\": " ++ decimal (pos (end_code_size end_code))))
