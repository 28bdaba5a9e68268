-- ===== src/Ipc/Wire.antt =====
-- src/utils.c: the 16- and 32-bit numbers of the protocol, most significant byte first, and the
-- machine integers that they are read into. A read past the end of the buffer is `none`.
use print3d.Prelude.{
  ℕ, ◌+◌, ◌-◌, ◌*◌, ◌/◌, ◌%◌, ◌^◌, ◌<◌, ◌≡◌, Option, none, some, [], ◌∷◌, ◌++◌, arith, ltb,
  if◌then◌else◌,
}
use print3d.Prelude.Int.{ℤ, pos, negsuc}
use print3d.Prelude.Text.{Bytes}

unfoldable pub read_ns : Bytes → Option ℕ
read_ns (a ∷ b ∷ _) = some (a * 256 + b)
read_ns _ = none

unfoldable pub read_nl : Bytes → Option ℕ
read_nl (a ∷ b ∷ c ∷ d ∷ _) = some (((a * 256 + b) * 256 + c) * 256 + d)
read_nl _ = none

unfoldable pub store_ns : ℕ → Bytes
store_ns v = (v / 256 % 256) ∷ (v % 256) ∷ []

unfoldable pub store_nl : ℕ → Bytes
store_nl v = (v / 256 / 256 / 256 % 256) ∷ (v / 256 / 256 % 256) ∷ (v / 256 % 256) ∷ (v % 256) ∷ []

-- An integer as an unsigned one of 16 or 32 bits, and back.
unfoldable pub to_uint16 : ℤ → ℕ
to_uint16 (pos n) = n % 2 ^ 16
to_uint16 (negsuc n) = 2 ^ 16 - 1 - n % 2 ^ 16

unfoldable pub to_uint32 : ℤ → ℕ
to_uint32 (pos n) = n % 2 ^ 32
to_uint32 (negsuc n) = 2 ^ 32 - 1 - n % 2 ^ 32

unfoldable pub to_int16 : ℕ → ℤ
to_int16 n = if ltb n (2 ^ 15) then pos n else negsuc (2 ^ 16 - 1 - n)

unfoldable pub to_int32 : ℕ → ℤ
to_int32 n = if ltb n (2 ^ 31) then pos n else negsuc (2 ^ 32 - 1 - n)

pub read_ns-store_ns : (v : ℕ) (r : Bytes) → v < 2 ^ 16 → read_ns (store_ns v ++ r) ≡ some v
unfolding read_ns store_ns
read_ns-store_ns v r h = ground arith

pub read_nl-store_nl : (v : ℕ) (r : Bytes) → v < 2 ^ 32 → read_nl (store_nl v ++ r) ≡ some v
unfolding read_nl store_nl
read_nl-store_nl v r h = ground arith

-- An integer is in the range of `int16_t` or `int32_t`.
unfoldable pub IsInt16 : ℤ → Type 0
IsInt16 (pos n) = n < 2 ^ 15
IsInt16 (negsuc n) = n < 2 ^ 15

unfoldable pub IsInt32 : ℤ → Type 0
IsInt32 (pos n) = n < 2 ^ 31
IsInt32 (negsuc n) = n < 2 ^ 31

pub to_int16-to_uint16 : (v : ℤ) → IsInt16 v → to_int16 (to_uint16 v) ≡ v
unfolding to_int16 to_uint16 IsInt16
to_int16-to_uint16 (pos n) h = ground arith
to_int16-to_uint16 (negsuc n) h = ground arith

pub to_int32-to_uint32 : (v : ℤ) → IsInt32 v → to_int32 (to_uint32 v) ≡ v
unfolding to_int32 to_uint32 IsInt32
to_int32-to_uint32 (pos n) h = ground arith
to_int32-to_uint32 (negsuc n) h = ground arith

pub to_uint16-lt : (v : ℤ) → to_uint16 v < 2 ^ 16
unfolding to_uint16
to_uint16-lt (pos n) = omega arith
to_uint16-lt (negsuc n) = omega arith

pub to_uint32-lt : (v : ℤ) → to_uint32 v < 2 ^ 32
unfolding to_uint32
to_uint32-lt (pos n) = omega arith
to_uint32-lt (negsuc n) = omega arith
