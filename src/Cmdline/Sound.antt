-- ===== src/Cmdline/Sound.antt =====
-- Whatever the options of the command line client are, it uses no pointer of its own that is null, and
-- reads nothing behind the list of devices.
use print3d.Prelude.{
  not, ◌||◌, false, ◌≡◌, refl, Bool, true, Option, none, some, List, inl, inr, Bool-cases,
}
use print3d.Prelude.Int.{ℤ, is_nonneg}
use print3d.Prelude.Text.{Bytes}
use print3d.Ipc.Devices.{DirEntry}
use print3d.Cmdline.Options.{
  Action, at_none, at_err_unknown, at_err_missing, at_err_invalid_get, at_show_help,
  at_get_temperature, at_get_test, at_get_trx_test, at_get_progress, at_get_state, at_get_supported,
  at_heatup, at_print_file, at_send_code, at_send_stdin, at_stop_print, Options, Written,
  parse_options,
}
use print3d.Cmdline.Actions.{Comm, Done}
use print3d.Cmdline.Dispatch.{
  Result, finished, crashed, misused, result_of, World, opens_socket, act, act_opened,
  print_given_file, handle_action,
}
use print3d.Cmdline.Main.{
  Input, Choice, goes_on, exits, misreads, choose_device, without_path, run_choice, run_options,
  written_before, main,
}
use print3d.Cmdline.Supplied.{
  is_given, Needs, Ready, Fine, FewDevices, parse_options-Ready, choose_device-Fine,
  opens_socket-Needs,
}

abbrev pub is_sound : {S : Type 0} → Result S → Bool
is_sound (finished d) = true
is_sound crashed = true
is_sound misused = false

-- Where the client goes on to an action that opens the socket, it has a device.
abbrev pub is_supplied : Choice → Bool
is_supplied (goes_on o ws) = not (opens_socket o.action) || is_given o.device_id
is_supplied (exits ws code) = true
is_supplied misreads = false

is_supplied-Fine : (c : Choice) → Fine c → is_supplied c ≡ true
is_supplied-Fine (goes_on o ws) (r, d) = elim (Bool-cases (opens_socket o.action)) [
  | inl e ↦
      let given : is_given o.device_id ≡ true =
        d (opens_socket-Needs o.device_id_required o.print_file o.action r.needs e) in
      rw (e, given) refl
  | inr e ↦ rw e refl
]
is_supplied-Fine (exits ws code) fine = refl
is_supplied-Fine misreads fine = cc

pub is_supplied-choose_device :
    (atoi : Bytes → ℤ) (i : Input)
    → FewDevices i.entries
    → is_supplied (choose_device (parse_options atoi i.given) i.entries) ≡ true
is_supplied-choose_device atoi i few = is_supplied-Fine _ (
    choose_device-Fine (parse_options atoi i.given) i.entries few
      (parse_options-Ready atoi i.given))

module _ {S : Type 0} where
  is_sound-result_of : (o : Option (Done S)) → is_sound (result_of o) ≡ true
  is_sound-result_of none = refl
  is_sound-result_of (some d) = refl

module _ {S : Type 0} (comm : Comm S) (world : World) where
  is_sound-print_file :
      (json : Bool) (s : S) (file : Option Bytes)
      → is_given file ≡ true
      → is_sound (print_given_file comm world json s file) ≡ true
  is_sound-print_file json s none h = cc
  is_sound-print_file json s (some file) h = is_sound-result_of _

  is_sound-act :
      (o : Options) (s : S) (a : Action)
      → Needs o.device_id_required o.print_file a
      → is_sound (act comm world o s a) ≡ true
  is_sound-act o s at_none n = refl
  is_sound-act o s at_err_unknown n = refl
  is_sound-act o s at_err_missing n = refl
  is_sound-act o s at_err_invalid_get n = refl
  is_sound-act o s at_show_help n = refl
  is_sound-act o s at_get_temperature n = is_sound-result_of _
  is_sound-act o s at_get_test n = is_sound-result_of _
  is_sound-act o s at_get_trx_test n = is_sound-result_of _
  is_sound-act o s at_get_progress n = is_sound-result_of _
  is_sound-act o s at_get_state n = is_sound-result_of _
  is_sound-act o s at_get_supported n = refl
  is_sound-act o s at_heatup n = is_sound-result_of _
  is_sound-act o s at_print_file n = is_sound-print_file o.json_output s o.print_file n.1
  is_sound-act o s at_send_code n = is_sound-result_of _
  is_sound-act o s at_send_stdin n = is_sound-result_of _
  is_sound-act o s at_stop_print n = is_sound-result_of _

  is_sound-act_opened :
      (o : Options) (r : Option (S × ℤ)) → Ready o → is_sound (act_opened comm world o r) ≡ true
  is_sound-act_opened o none ready = refl
  is_sound-act_opened o (some (s, rv)) ready = elim (Bool-cases (is_nonneg rv)) [
    | inl e ↦ rw e (is_sound-act o s o.action ready.needs)
    | inr e ↦ rw e refl
  ]

  is_sound-handle_action :
      (o : Options) (s : S) → Ready o → is_sound (handle_action comm world s o) ≡ true
  unfolding handle_action
  is_sound-handle_action o s r = elim (Bool-cases (opens_socket o.action)) [
    | inl e ↦ rw e (is_sound-act_opened o (comm.open_socket s o.device_id) r)
    | inr e ↦ rw e (is_sound-act o s o.action r.needs)
  ]

  is_sound-written_before :
      (ws : List Written) (r : Result S)
      → is_sound r ≡ true
      → is_sound (written_before comm world ws r) ≡ true
  is_sound-written_before ws (finished (s, more, code)) h = refl
  is_sound-written_before ws crashed h = refl
  is_sound-written_before ws misused h = h

  is_sound-run_choice : (s : S) (c : Choice) → Fine c → is_sound (run_choice comm world s c) ≡ true
  is_sound-run_choice s (goes_on o ws) (r, d) = is_sound-written_before _ _ (
      is_sound-handle_action (record o { device_id = without_path o.device_id }) s
        (record { needs = r.needs }))
  is_sound-run_choice s (exits ws code) fine = refl
  is_sound-run_choice s misreads fine = cc

  is_sound-run_options :
      (s : S) (o : Options) (entries : Option (List DirEntry)) (message : Option Bytes)
      → FewDevices entries
      → Ready o
      → is_sound (run_options comm world s o entries message) ≡ true
  is_sound-run_options s o entries none few r =
      is_sound-written_before _ _
        (is_sound-run_choice s (choose_device o entries) (choose_device-Fine o entries few r))
  is_sound-run_options s o entries (some message) few r = refl

  pub is_sound-main :
      (atoi : Bytes → ℤ) (s : S) (i : Input)
      → FewDevices i.entries
      → is_sound (main comm world atoi s i) ≡ true
  unfolding main
  is_sound-main atoi s i few =
      is_sound-run_options s (parse_options atoi i.given) i.entries _ few
        (parse_options-Ready atoi i.given)
