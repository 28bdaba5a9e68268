-- ===== src/Driver/Firmware.antt =====
-- src/drivers/DriverFactory.cpp, and the getDriverInfo of the drivers: the firmware that each driver
-- supports, and the driver that is created for a name.
use print3d.Prelude.{Bool, true, false, Option, none, some, List, [], ◌∷◌, if◌then◌else◌}
use print3d.Prelude.Text.{Bytes, codes, bytes_eq}

-- Which class a driver is an instance of.
pub data Kind : Type 0 where
  marlin makerbot : Kind

abbrev pub marlin_firmware : List Bytes
marlin_firmware =
    codes "rigidbot"
    ∷ codes "ultimaker"
    ∷ codes "ultimaker2"
    ∷ codes "ultimaker2go"
    ∷ codes "ultimaker_original_plus"
    ∷ codes "renkforce_rf100"
    ∷ codes "printrbot"
    ∷ codes "bukobot"
    ∷ codes "cartesio"
    ∷ codes "cyrus"
    ∷ codes "delta_rostockmax"
    ∷ codes "deltamaker"
    ∷ codes "eventorbot"
    ∷ codes "felix"
    ∷ codes "gigabot"
    ∷ codes "kossel"
    ∷ codes "leapfrog_creatr"
    ∷ codes "lulzbot_aO_101"
    ∷ codes "lulzbot_taz_4"
    ∷ codes "makergear_m2"
    ∷ codes "makergear_prusa"
    ∷ codes "makibox"
    ∷ codes "orca_0_3"
    ∷ codes "ord_bot_hadron"
    ∷ codes "printxel_3d"
    ∷ codes "prusa_i3"
    ∷ codes "prusa_iteration_2"
    ∷ codes "rapman"
    ∷ codes "reprappro_huxley"
    ∷ codes "reprappro_mendel"
    ∷ codes "robo_3d_printer"
    ∷ codes "shapercube"
    ∷ codes "tantillus"
    ∷ codes "minifactory"
    ∷ codes "vision_3d_printer"
    ∷ codes "builder3d"
    ∷ codes "bigbuilder3d"
    ∷ codes "mamba3d"
    ∷ codes "marlin_generic"
    ∷ codes "doodle_dream"
    ∷ codes "colido_2_0_plus"
    ∷ codes "colido_m2020"
    ∷ codes "colido_x3045"
    ∷ codes "colido_compact"
    ∷ codes "colido_diy"
    ∷ codes "craftbot_plus"
    ∷ []

abbrev pub makerbot_firmware : List Bytes
makerbot_firmware =
    codes "_3Dison_plus"
    ∷ codes "makerbot_replicator2"
    ∷ codes "makerbot_replicator2x"
    ∷ codes "makerbot_thingomatic"
    ∷ codes "makerbot_generic"
    ∷ codes "wanhao_duplicator4"
    ∷ []

pub record DriverInfo : Type 0 where
  pub name : Bytes
  pub supported_firmware : List Bytes
  pub creator : Kind

abbrev pub driver_infos : List DriverInfo
driver_infos =
    record { name = codes "Marlin"; supported_firmware = marlin_firmware; creator = marlin }
    ∷ record { name = codes "Makerbot"; supported_firmware = makerbot_firmware; creator = makerbot }
    ∷ []

unfoldable pub supports : List Bytes → Bytes → Bool
unfolding bytes_eq
supports [] name = false
supports (f ∷ fs) name = if bytes_eq f name then true else supports fs name

unfoldable pub create_from : List DriverInfo → Bytes → Option Kind
unfolding supports
create_from [] name = none
create_from (d ∷ ds) name =
    if supports d.supported_firmware name then some d.creator else create_from ds name

-- `none` is the null pointer for a name that no driver supports.
unfoldable pub create_driver : Bytes → Option Kind
unfolding create_from
create_driver name = create_from driver_infos name
