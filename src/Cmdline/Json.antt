-- ===== src/Cmdline/Json.antt =====
-- With --json, the command line client writes to stdout only: the actions.
use print3d.Prelude.{
  bind, ◌≡◌, refl, Bool, true, false, ◌&&◌, Option, none, some, List, [], ◌∷◌, ◌++◌, if◌then◌else◌,
  arith,
}
use print3d.Prelude.Int.{ℤ, is_nonneg}
use print3d.Prelude.Text.{Bytes, codes}
use print3d.Cmdline.Options.{Written, to_stdout, to_stderr, print_error, print_json_ok}
use print3d.Cmdline.Actions.{
  Comm, Done, with_error, read_error, test_result, print_temperatures, print_test_responses,
  print_test_outcome, temp_hotend, temp_hotend_tgt, temp_bed, temp_bed_tgt, temp_heating,
  act_print_temperature, act_print_test_response, act_test_transactions,
}
use print3d.Cmdline.Sending.{act_send_gcode_file, act_send_gcode, act_send_gcode_from_stdin}
use print3d.Cmdline.Queries.{act_print_progress, act_print_state, act_do_heatup, act_stop_print}

unfoldable pub on_stdout : List Written → Bool
on_stdout [] = true
on_stdout (to_stdout s ∷ ws) = on_stdout ws
on_stdout (to_stderr s ∷ ws) = false

pub on_stdout-nil : on_stdout [] ≡ true
unfolding on_stdout
on_stdout-nil = refl

pub on_stdout-append : (a b : List Written) → on_stdout (a ++ b) ≡ (on_stdout a && on_stdout b)
unfolding on_stdout
on_stdout-append [] b = refl
on_stdout-append (to_stdout s ∷ a) b = on_stdout-append a b
on_stdout-append (to_stderr s ∷ a) b = refl

pub on_stdout-error : (s : Bytes) → on_stdout (print_error true s) ≡ true
unfolding on_stdout print_error
on_stdout-error s = refl

pub on_stdout-json_ok : (s : Bytes) → on_stdout (print_json_ok s) ≡ true
unfolding on_stdout print_json_ok
on_stdout-json_ok s = refl

pub on_stdout-if :
    (c : Bool) (a b : List Written)
    → on_stdout a ≡ true
    → on_stdout b ≡ true
    → on_stdout (if c then a else b) ≡ true
on_stdout-if true a b x y = x
on_stdout-if false a b x y = y

module _ {S : Type 0} where
  -- What an action has written.
  abbrev pub is_plain : Done S → Bool
  is_plain d = on_stdout d.1

  pub is_plain-if :
      (c : Bool) (a b : Done S)
      → is_plain a ≡ true
      → is_plain b ≡ true
      → is_plain (if c then a else b) ≡ true
  is_plain-if true a b x y = x
  is_plain-if false a b x y = y

  -- Nothing went to stderr, as far as the action came.
  abbrev pub is_clean : Option (Done S) → Bool
  is_clean none = true
  is_clean (some d) = is_plain d

  is_clean-bind :
      {A : Type 0} (o : Option A) (f : A → Option (Done S))
      → ((a : A) → is_clean (f a) ≡ true)
      → is_clean (bind o f) ≡ true
  is_clean-bind none f h = refl
  is_clean-bind (some a) f h = h a

module _ {S : Type 0} (comm : Comm S) where
  on_stdout-with_error : (s : S) (what : Bytes) → on_stdout (with_error comm true s what) ≡ true
  on_stdout-with_error s what = on_stdout-error _

  on_stdout-read_error :
      (p : S × ℤ × Option ℤ) (what : Bytes) → on_stdout (read_error comm true p what) ≡ true
  unfolding on_stdout print_error
  on_stdout-read_error (s, rv, v) what = ground arith

  is_plain-print_temperatures :
      (a b c d e : S × ℤ × Option ℤ) (heating : ℤ)
      → is_plain (print_temperatures comm true a b c d e heating) ≡ true
  unfolding print_temperatures
  is_plain-print_temperatures a b c d e heating =
      simp (on_stdout-append, on_stdout-read_error, on_stdout-json_ok)

  pub is_clean-temperature :
      (s : S) (heating : ℤ) → is_clean (act_print_temperature comm true s heating) ≡ true
  unfolding act_print_temperature
  is_clean-temperature s heating = is_clean-bind (comm.get_temperature s temp_hotend) _ (λ a.
      is_clean-bind (comm.get_temperature a.0 temp_hotend_tgt) _ (λ b.
        is_clean-bind (comm.get_temperature b.0 temp_bed) _ (λ c.
          is_clean-bind (comm.get_temperature c.0 temp_bed_tgt) _ (λ d.
            is_clean-bind (comm.get_temperature d.0 temp_heating) _
              (λ e. is_plain-print_temperatures a b c d e heating)))))

  on_stdout-test_result :
      (p : S × ℤ × Bytes) (which : Bytes) → on_stdout (test_result comm true p which) ≡ true
  unfolding on_stdout print_error
  on_stdout-test_result (s, rv, answer) which = ground arith

  is_plain-print_test_responses :
      (first second : S × ℤ × Bytes) → is_plain (print_test_responses comm true first second) ≡ true
  unfolding print_test_responses on_stdout
  is_plain-print_test_responses first second =
      let ok =
        on_stdout-if (is_nonneg second.1 && true) (print_json_ok []) [] (on_stdout-json_ok [])
          refl in
      simp (on_stdout-append, on_stdout-test_result, ok)

  pub is_clean-test_response : (s : S) → is_clean (act_print_test_response comm true s) ≡ true
  unfolding act_print_test_response
  is_clean-test_response s = is_clean-bind (comm.test_command s none) _ (λ first.
      is_clean-bind (comm.test_command first.0 (some (codes "what?"))) _
        (λ second. is_plain-print_test_responses first second))

  is_plain-print_test_outcome :
      (r : S × ℤ × Bytes) (address : Bytes)
      → is_plain (print_test_outcome comm true r address) ≡ true
  unfolding print_test_outcome on_stdout print_error print_json_ok
  is_plain-print_test_outcome r address = ground arith

  pub is_clean-test_transactions :
      (s : S) (device_id : Option Bytes) (address : Bytes)
      → is_clean (act_test_transactions comm true s device_id address) ≡ true
  unfolding act_test_transactions
  is_clean-test_transactions s device_id address =
      is_clean-bind (comm.test_transactions s device_id) _
        (λ r. is_plain-print_test_outcome r address)

  pub is_clean-send_gcode :
      (s : S) (gcode : Bytes) → is_clean (act_send_gcode comm true s gcode) ≡ true
  unfolding act_send_gcode on_stdout print_error print_json_ok
  is_clean-send_gcode s gcode = ground arith

  pub is_clean-send_gcode_file :
      (s : S) (file : Bytes) → is_clean (act_send_gcode_file comm true s file) ≡ true
  unfolding act_send_gcode_file on_stdout print_error print_json_ok
  is_clean-send_gcode_file s file = ground arith

  pub is_clean-progress :
      (s : S) (percent : ℤ → ℤ → Bytes) → is_clean (act_print_progress comm true s percent) ≡ true
  unfolding act_print_progress on_stdout print_error print_json_ok
  is_clean-progress s percent = ground arith

  pub is_clean-state : (s : S) → is_clean (act_print_state comm true s) ≡ true
  unfolding act_print_state on_stdout print_error print_json_ok
  is_clean-state s = ground arith

  pub is_clean-heatup :
      (s : S) (temperature : ℤ) → is_clean (act_do_heatup comm true s temperature) ≡ true
  unfolding act_do_heatup on_stdout print_error print_json_ok
  is_clean-heatup s temperature = ground arith

  pub is_clean-stop_print :
      (s : S) (end_code : Option Bytes) → is_clean (act_stop_print comm true s end_code) ≡ true
  unfolding act_stop_print on_stdout print_error print_json_ok
  is_clean-stop_print s end_code = ground arith

  pub is_clean-stdin :
      (s : S) (stdin : List (Option Bytes)) (behind failure : Bytes)
      → is_clean (act_send_gcode_from_stdin comm true s stdin behind failure) ≡ true
  unfolding act_send_gcode_from_stdin on_stdout print_error print_json_ok
  is_clean-stdin s stdin behind failure = ground arith
