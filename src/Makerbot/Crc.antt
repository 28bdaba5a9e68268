-- ===== src/Makerbot/Crc.antt =====
-- src/drivers/MakerbotDriver.cpp: the checksum of a packet, `_crc_ibutton_update`.
pub mod Xor
pub mod Detect
use Prim.Native.Nat.{bit_and, bit_xor}
use print3d.Prelude.{ℕ, zero, suc, ◌/◌, [], ◌∷◌, if◌then◌else◌, ◌==◌}
use print3d.Prelude.Text.{Bytes}

-- One turn of the loop over the bits.
unfoldable pub crc_turn : ℕ → ℕ
crc_turn crc = if bit_and crc 0x01 == 0 then crc / 2 else bit_xor (crc / 2) 0x8C

abbrev pub crc_turns : ℕ → ℕ → ℕ
crc_turns zero crc = crc
crc_turns (suc n) crc = crc_turns n (crc_turn crc)

unfoldable pub crc_ibutton_update : ℕ → ℕ → ℕ
unfolding crc_turn
crc_ibutton_update crc b = crc_turns 8 (bit_xor crc b)

-- The loop over a payload, from the checksum so far.
abbrev pub crc_from : ℕ → Bytes → ℕ
crc_from crc [] = crc
crc_from crc (b ∷ bs) = crc_from (crc_ibutton_update crc b) bs

abbrev pub crc : Bytes → ℕ
crc bs = crc_from 0 bs
