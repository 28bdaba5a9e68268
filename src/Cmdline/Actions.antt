-- ===== src/Cmdline/Actions.antt =====
-- src/frontends/cmdline/actions.c, the functions act_*. What the communicator does is an argument, as
-- is what printf makes of a fraction and of an address.
use print3d.Prelude.{
  bind, ℕ, zero, suc, Bool, not, ◌&&◌, Option, none, some, List, [], ◌∷◌, ◌++◌, if◌then◌else◌,
}
use print3d.Prelude.Int.{ℤ, pos, negsuc, is_nonneg, eq_ℤ}
use print3d.Prelude.Text.{Bytes, codes}
use print3d.Driver.Print.{decimal}
use print3d.Cmdline.Options.{Written, to_stdout, print_error, print_json_ok}

-- The functions of the communicator: each answers with its value, and with what it stored, if anything.
-- `none` is a crash inside it: a device whose name does not fit into the address of a socket, an
-- error reply without a text, a text with conversions that is used as a format. A device that is null
-- is refused. What `get_error` gives is as printf shows it.
pub record Comm (S : Type 0) : Type 0 where
  pub open_socket : S → Option Bytes → Option (S × ℤ)
  pub close_socket : S → S
  pub get_error : S → Bytes
  pub test_command : S → Option Bytes → Option (S × ℤ × Bytes)
  pub test_transactions : S → Option Bytes → Option (S × ℤ × Bytes)
  pub clear_gcode : S → Option (S × ℤ)
  pub start_print_gcode : S → Option (S × ℤ)
  pub stop_print_gcode : S → Option Bytes → Option (S × ℤ)
  pub send_gcode_file : S → Bytes → Option (S × ℤ)
  pub send_gcode_data : S → Bytes → Option (S × ℤ)
  pub get_temperature : S → ℕ → Option (S × ℤ × Option ℤ)
  pub heat_up : S → ℤ → Option (S × ℤ)
  pub get_progress : S → Option (S × ℤ × List ℤ)
  pub get_state : S → Option (S × ℤ × Bytes)

-- IPC_TEMPERATURE_PARAMETER
abbrev pub temp_hotend : ℕ
temp_hotend = 1

abbrev pub temp_hotend_tgt : ℕ
temp_hotend_tgt = 2

abbrev pub temp_bed : ℕ
temp_bed = 3

abbrev pub temp_bed_tgt : ℕ
temp_bed_tgt = 4

abbrev pub temp_heating : ℕ
temp_heating = 5

-- What is written besides, and the exit code.
abbrev pub Done : Type 0 → Type 0
Done S = S × List Written × ℤ

abbrev pub stored : ℤ → Option ℤ → ℤ
stored initial none = initial
stored initial (some v) = v

-- The value at a place, or what the variable was initialised with.
abbrev pub stored_at : ℤ → List ℤ → ℕ → ℤ
stored_at initial [] i = initial
stored_at initial (v ∷ vs) zero = v
stored_at initial (v ∷ vs) (suc i) = stored_at initial vs i

-- Text for the terminal, or the members of a JSON object.
abbrev pub say : Bool → Bytes → Bytes → List Written
say json text members = if json then print_json_ok members else to_stdout text ∷ []

module _ {S : Type 0} (comm : Comm S) (json_output : Bool) where
  abbrev pub with_error : S → Bytes → List Written
  with_error s what =
      print_error json_output (what ++ (codes " (" ++ (comm.get_error s ++ codes ")")))

  -- What a step answered; an error ends the action with 1.
  abbrev pub attempt : Option (S × ℤ) → Bytes → (S → Option (Done S)) → Option (Done S)
  attempt none what next = none
  attempt (some (s, rv)) what next =
      if is_nonneg rv then next s else some (s, with_error s what, pos 1)

  abbrev pub finish : S → Bytes → Bytes → Option (Done S)
  finish s text members = some (comm.close_socket s, say json_output text members, pos 0)

  abbrev pub read_error : S × ℤ × Option ℤ → Bytes → List Written
  read_error (s, rv, v) what =
      if is_nonneg rv then [] else with_error s (codes "could not read " ++ what)

  -- What is written of the five readings. `heating` has no initial value.
  unfoldable pub print_temperatures : (a b c d e : S × ℤ × Option ℤ) → ℤ → Done S
  unfolding decimal
  print_temperatures a b c d e heating =
      let least = negsuc 32767 in
      let hotend = decimal (stored least a.2) in
      let hotend_tgt = decimal (stored least b.2) in
      let bed = decimal (stored least c.2) in
      let bed_tgt = decimal (stored least d.2) in
      let is_heating = not (eq_ℤ (stored heating e.2) (pos 0)) in
      let errors =
        read_error a (codes "hotend temperature")
        ++ (read_error b (codes "hotend target temperature")
            ++ (read_error c (codes "bed temperature")
                ++ (read_error d (codes "bed target temperature")
                    ++ read_error e (codes "heating status")))) in
      let all_read =
        is_nonneg a.1 && is_nonneg b.1 && is_nonneg c.1 && is_nonneg d.1 && is_nonneg e.1 in
      let text =
        codes "actual/target hotend temperature: "
        ++ (hotend
            ++ (codes "/"
                ++ (hotend_tgt
                    ++ (codes "; actual/target bed temperature: "
                        ++ (bed
                            ++ (codes "/"
                                ++ (bed_tgt
                                    ++ (codes ", heating: "
                                        ++ (if is_heating
                                            then codes "yes\n"
                                            else codes "no\n"))))))))) in
      let members =
        codes "\"temperatures\": {\"hotend\": {\"current\": "
        ++ (hotend
            ++ (codes ", \"target\": "
                ++ (hotend_tgt
                    ++ (codes "}, \"bed\": {\"current\": "
                        ++ (bed
                            ++ (codes ", \"target\": "
                                ++ (bed_tgt
                                    ++ (codes "}, \"heating\": "
                                        ++ (if is_heating
                                            then codes "true}"
                                            else codes "false}"))))))))) in
      (
        comm.close_socket e.0,
        errors ++ say json_output text members,
        if all_read then pos 0 else pos 1,
      )

  unfoldable pub act_print_temperature : S → ℤ → Option (Done S)
  unfolding print_temperatures
  act_print_temperature s heating = bind (comm.get_temperature s temp_hotend) (λ a.
      bind (comm.get_temperature a.0 temp_hotend_tgt) (λ b.
        bind (comm.get_temperature b.0 temp_bed) (λ c.
          bind (comm.get_temperature c.0 temp_bed_tgt) (λ d.
            bind (comm.get_temperature d.0 temp_heating)
              (λ e. some (print_temperatures a b c d e heating))))))

  abbrev pub test_result : S × ℤ × Bytes → Bytes → List Written
  test_result (s, rv, answer) which =
      if is_nonneg rv
      then if json_output
        then []
        else to_stdout (which ++ (codes " test command returned: '" ++ (answer ++ codes "'\n")))
          ∷ []
      else with_error s (codes "could not complete " ++ (which ++ codes " test command"))

  unfoldable pub print_test_responses : (first second : S × ℤ × Bytes) → Done S
  print_test_responses first second = (
    comm.close_socket second.0,
    test_result first (codes "first")
        ++ (test_result second (codes "second")
            ++ (if is_nonneg second.1 && json_output then print_json_ok [] else [])),
    if is_nonneg first.1 && is_nonneg second.1 then pos 0 else pos 1,
  )

  unfoldable pub act_print_test_response : S → Option (Done S)
  unfolding print_test_responses
  act_print_test_response s = bind (comm.test_command s none) (λ first.
      bind (comm.test_command first.0 (some (codes "what?")))
        (λ second. some (print_test_responses first second)))

  -- `address` is how the address of the text is printed, which is what the format asks for.
  unfoldable pub print_test_outcome : S × ℤ × Bytes → Bytes → Done S
  unfolding decimal
  print_test_outcome r address =
      if eq_ℤ r.1 (pos 0)
      then (
        r.0,
        say json_output (codes "ok, transaction tester returned: " ++ (r.2 ++ codes "\n")) [],
        pos 0,
      )
      else (
        r.0,
        print_error json_output (
            codes "test failed (code: "
            ++ (decimal r.1 ++ (codes ", text: '" ++ (address ++ codes "'")))),
        pos 1,
      )

  unfoldable pub act_test_transactions : S → Option Bytes → Bytes → Option (Done S)
  unfolding print_test_outcome
  act_test_transactions s device_id address =
      bind (comm.test_transactions s device_id) (λ r. some (print_test_outcome r address))
