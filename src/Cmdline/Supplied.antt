-- ===== src/Cmdline/Supplied.antt =====
-- What the options of the command line client supply to its action: a device where one is required,
-- and a file to print.
use print3d.Prelude.{
  ℕ, ◌≤◌, ◌≡◌, refl, Bool, true, false, Option, none, some, List, [], ◌∷◌, arith, if◌then◌else◌,
  length,
}
use print3d.Prelude.Int.{ℤ}
use print3d.Prelude.Text.{Bytes}
use print3d.Ipc.Devices.{DirEntry, DeviceList, device_names, find_devices}
use print3d.Cmdline.Options.{
  Action, at_none, at_err_unknown, at_err_missing, at_err_invalid_get, at_show_help,
  at_get_supported, at_print_file, Options, no_options, parse_get, parse_option, parse_each,
  parse_options,
}
use print3d.Cmdline.Dispatch.{opens_socket}
use print3d.Cmdline.Main.{
  Choice, goes_on, exits, misreads, several_devices, no_device, among_devices, choose_device,
  choose_for, without_path,
}

abbrev pub is_given : Option Bytes → Bool
is_given none = false
is_given (some x) = true

-- What an action needs of the options: that a device is required, and a file to print.
abbrev pub Needs : Bool → Option Bytes → Action → Type 0
Needs required file at_none = Unit
Needs required file at_err_unknown = Unit
Needs required file at_err_missing = Unit
Needs required file at_err_invalid_get = Unit
Needs required file at_show_help = Unit
Needs required file at_get_supported = Unit
Needs required file at_print_file = (required ≡ true) × (is_given file ≡ true)
Needs required file _ = required ≡ true

pub record Ready (o : Options) : Type 0 where
  pub needs : Needs o.device_id_required o.print_file o.action

parse_get-Ready : (o : Options) (optarg : Bytes) → Ready (parse_get o optarg)
unfolding parse_get
parse_get-Ready o optarg = record { needs = ground arith }

module _ (atoi : Bytes → ℤ) where
  parse_option-Ready :
      (o : Options) (ch : ℕ) (optarg : Bytes) → Ready o → Ready (parse_option atoi o ch optarg)
  unfolding parse_option
  parse_option-Ready o ch optarg r =
      let needs : Needs o.device_id_required o.print_file o.action = r.needs in
      let get : Needs (parse_get o optarg).device_id_required (parse_get o optarg).print_file
          (parse_get o optarg).action =
        (parse_get-Ready o optarg).needs in
      record { needs = ground arith }

  parse_each-Ready :
      (o : Options) (given : List (ℕ × Bytes)) → Ready o → Ready (parse_each atoi o given)
  unfolding parse_each
  parse_each-Ready o [] r = r
  parse_each-Ready o ((ch, optarg) ∷ rest) r =
      parse_each-Ready (parse_option atoi o ch optarg) rest (parse_option-Ready o ch optarg r)

  pub parse_options-Ready : (given : List (ℕ × Bytes)) → Ready (parse_options atoi given)
  unfolding parse_options
  parse_options-Ready given =
      let r = parse_each-Ready no_options given (record { needs = tt }) in
      let needs : Needs (parse_each atoi no_options given).device_id_required
          (parse_each atoi no_options given).print_file (parse_each atoi no_options given).action =
        r.needs in
      record { needs = ground arith }

-- A device is known where one is required.
abbrev pub Fine : Choice → Type 0
Fine (goes_on o ws) = Ready o × (o.device_id_required ≡ true → is_given o.device_id ≡ true)
Fine (exits ws code) = Unit
Fine misreads = true ≡ false

-- The list of devices keeps its end.
abbrev pub FewDevices : Option (List DirEntry) → Type 0
FewDevices none = Unit
FewDevices (some es) = length (device_names es) ≤ 2

if-Fine : (c : Bool) (a b : Choice) → Fine a → Fine b → Fine (if c then a else b)
if-Fine true a b x y = x
if-Fine false a b x y = y

among_devices-Fine :
    (o : Options) (l : DeviceList) (names : List Bytes)
    → l.is_terminated ≡ true
    → Ready o
    → Fine (among_devices o l names)
unfolding no_device several_devices
among_devices-Fine o l [] t r = if-Fine o.force_start _ _ (record { needs = r.needs }, λ q. refl) tt
among_devices-Fine o l (device ∷ []) t r = (record { needs = r.needs }, λ q. refl)
among_devices-Fine o l (device ∷ another ∷ more) t r = if-Fine o.json_output _ _ tt (rw t tt)

choose_for-Fine :
    (o : Options) (required : Bool) (device_id : Option Bytes) (entries : Option (List DirEntry))
    → o.device_id_required ≡ required
    → o.device_id ≡ device_id
    → FewDevices entries
    → Ready o
    → Fine (choose_for o required device_id entries)
unfolding find_devices
choose_for-Fine o true none none e d few r = tt
choose_for-Fine o true none (some es) e d few r =
    among_devices-Fine o _ (device_names es) (ground arith) r
choose_for-Fine o true (some device) entries e d few r = (r, λ q. rw d refl)
choose_for-Fine o false device_id entries e d few r = (r, λ q. cc)

pub choose_device-Fine :
    (o : Options) (entries : Option (List DirEntry))
    → FewDevices entries
    → Ready o
    → Fine (choose_device o entries)
unfolding choose_device
choose_device-Fine o entries few r =
    choose_for-Fine o o.device_id_required o.device_id entries refl refl few r

pub is_given-without_path : (d : Option Bytes) → is_given (without_path d) ≡ is_given d
is_given-without_path none = refl
is_given-without_path (some s) = refl

pub opens_socket-Needs :
    (required : Bool) (file : Option Bytes) (a : Action)
    → Needs required file a
    → opens_socket a ≡ true
    → required ≡ true
opens_socket-Needs required file a n h = ground arith
