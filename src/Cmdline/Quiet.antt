-- ===== src/Cmdline/Quiet.antt =====
-- With --json, the command line client writes to stdout only: the options and the choice of a device.
use print3d.Prelude.{
  ℕ, ◌≡◌, refl, Bool, true, false, Option, none, some, List, [], ◌∷◌, arith, inl, inr, Bool-cases,
}
use print3d.Prelude.Int.{ℤ, negsuc}
use print3d.Prelude.Text.{Bytes}
use print3d.Ipc.Devices.{DirEntry, DeviceList, find_devices}
use print3d.Cmdline.Options.{Options, print_error, parse_options}
use print3d.Cmdline.Main.{
  Choice, goes_on, exits, misreads, several_devices, no_device, among_devices, choose_device,
  choose_for,
}
use print3d.Cmdline.Json.{on_stdout, on_stdout-nil, on_stdout-error}

-- JSON mode, which is quiet.
pub record Json (o : Options) : Type 0 where
  pub json : o.json_output ≡ true
  pub quiet : o.verbosity ≡ negsuc 0

pub parse_options-Json :
    (atoi : Bytes → ℤ) (given : List (ℕ × Bytes))
    → (parse_options atoi given).json_output ≡ true
    → Json (parse_options atoi given)
unfolding parse_options
parse_options-Json atoi given h = record { json = h; quiet = ground arith }

-- A choice that is made in JSON mode leaves it.
abbrev pub Kept : Choice → Type 0
Kept (goes_on o ws) = Json o × (on_stdout ws ≡ true)
Kept (exits ws code) = on_stdout ws ≡ true
Kept misreads = Unit

no_device-Kept : (o : Options) → Json o → Kept (no_device o)
unfolding no_device on_stdout print_error
no_device-Kept o j = elim (Bool-cases o.force_start) [
  | inl e ↦ rw (e, j.json, j.quiet) (record { json = refl; quiet = refl }, refl)
  | inr e ↦ rw (e, j.json) refl
]

among_devices-Kept :
    (o : Options) (l : DeviceList) (names : List Bytes) → Json o → Kept (among_devices o l names)
unfolding several_devices
among_devices-Kept o l [] j = no_device-Kept o j
among_devices-Kept o l (device ∷ []) j = (record { json = j.json; quiet = j.quiet }, on_stdout-nil)
among_devices-Kept o l (device ∷ another ∷ more) j = rw j.json (on_stdout-error _)

choose_for-Kept :
    (o : Options) (required : Bool) (device_id : Option Bytes) (entries : Option (List DirEntry))
    → Json o
    → Kept (choose_for o required device_id entries)
unfolding find_devices
choose_for-Kept o true none none j = rw j.json (on_stdout-error _)
choose_for-Kept o true none (some es) j = among_devices-Kept o _ _ j
choose_for-Kept o true (some device) entries j = (j, on_stdout-nil)
choose_for-Kept o false device_id entries j = (j, on_stdout-nil)

pub choose_device-Kept :
    (o : Options) (entries : Option (List DirEntry)) → Json o → Kept (choose_device o entries)
unfolding choose_device
choose_device-Kept o entries j = choose_for-Kept o o.device_id_required o.device_id entries j
