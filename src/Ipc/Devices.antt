-- ===== src/Ipc/Devices.antt =====
-- src/ipc_shared.c, ipc_find_devices, as built for Linux: the serial devices among the entries of a
-- directory, which are an argument.
use print3d.Prelude.{
  Bool, ◌&&◌, Option, none, some, List, [], ◌∷◌, ◌++◌, leb, length, if◌then◌else◌,
}
use print3d.Prelude.Text.{Bytes, codes, starts_with}

pub record DirEntry : Type 0 where
  pub is_character_device : Bool
  pub name : Bytes

-- `strncmp(d_name, name, strlen(name)) == 0`
unfoldable pub matches : DirEntry → Bytes → Bool
unfolding starts_with
matches e prefix = e.is_character_device && starts_with prefix e.name

-- The two rounds of the inner loop.
unfoldable pub device_names : List DirEntry → List Bytes
unfolding matches
device_names [] = []
device_names (e ∷ es) =
    let rest = device_names es in
    (if matches e (codes "ttyACM") then e.name ∷ [] else [])
    ++ ((if matches e (codes "ttyUSB") then e.name ∷ [] else []) ++ rest)

-- The array has a null pointer behind its names only where it was not grown, since what realloc adds
-- is not cleared.
pub record DeviceList : Type 0 where
  pub names : List Bytes
  pub is_terminated : Bool

-- `none` is a null pointer: the directory cannot be opened.
unfoldable pub find_devices : Option (List DirEntry) → Option DeviceList
unfolding device_names
find_devices none = none
find_devices (some es) =
    let names = device_names es in
    some (record { names = names; is_terminated = leb (length names) 2 })
