-- ===== src/Makerbot/Crc/Detect.antt =====
-- The checksum of a packet: it stays a byte, and it tells two payloads apart that differ in one byte.
use Prim.Native.Nat.{bit_xor}
use print3d.Prelude.{
  ℕ, zero, suc, ◌+◌, ◌*◌, ◌<◌, ◌≡◌, ◌≢◌, refl, sym, ap, ◌∙◌, Bool, true, ◌&&◌, [], ◌∷◌, ◌++◌, arith,
  ltb, ltb→lt, ◌==◌, ==_iff, if◌then◌else◌,
}
use print3d.Prelude.Text.{Bytes, IsByteList}
use print3d.Makerbot.Crc.{crc_turn, crc_turns, crc_ibutton_update, crc_from, crc}
use print3d.Makerbot.Crc.Xor.{bit_xor-left, bit_xor-right, bit_xor-lt}

-- Over a small range, check every value by evaluation.
all_below : ℕ → (ℕ → Bool) → Bool
all_below zero p = true
all_below (suc n) p = p n && all_below n p

all_below_sound : (n : ℕ) (p : ℕ → Bool) (a : ℕ) → all_below n p ≡ true → a < n → p a ≡ true
unfolding all_below
all_below_sound zero p a h lt = absurd (omega arith)
all_below_sound (suc n) p a h lt = ground (arith, all_below_sound n p a)

-- The turn before: the highest bit says whether the polynomial was added.
abbrev turn_back : ℕ → ℕ
turn_back a = if ltb a 128 then a * 2 else bit_xor a 0x8C * 2 + 1

abbrev turns_back : ℕ → ℕ → ℕ
turns_back zero a = a
turns_back (suc n) a = turn_back (turns_back n a)

turns_table : all_below 256 (λ a. turns_back 8 (crc_turns 8 a) == a) ≡ true
unfolding all_below crc_turn
turns_table = refl

bound_table : all_below 256 (λ a. ltb (crc_turns 8 a) 256) ≡ true
unfolding all_below crc_turn
bound_table = refl

crc_turns-back : (a : ℕ) → a < 256 → turns_back 8 (crc_turns 8 a) ≡ a
crc_turns-back a h = (==_iff _ a).0 (all_below_sound 256 _ a turns_table h)

crc_turns-lt : (a : ℕ) → a < 256 → crc_turns 8 a < 256
crc_turns-lt a h = ltb→lt (crc_turns 8 a) 256 (all_below_sound 256 _ a bound_table h)

crc_turns_injective : (a b : ℕ) → a < 256 → b < 256 → crc_turns 8 a ≡ crc_turns 8 b → a ≡ b
crc_turns_injective a b h k e = sym (crc_turns-back a h) ∙ ap (turns_back 8) e ∙ crc_turns-back b k

pub crc_ibutton_update-lt : (c d : ℕ) → c < 256 → d < 256 → crc_ibutton_update c d < 256
unfolding crc_ibutton_update
crc_ibutton_update-lt c d h k = crc_turns-lt (bit_xor c d) (bit_xor-lt 8 c d h k)

update_left :
    (c a b : ℕ)
    → c < 256
    → a < 256
    → b < 256
    → crc_ibutton_update c a ≡ crc_ibutton_update c b
    → a ≡ b
unfolding crc_ibutton_update
update_left c a b hc ha hb e = bit_xor-left c a b (
    crc_turns_injective (bit_xor c a) (bit_xor c b) (bit_xor-lt 8 c a hc ha)
      (bit_xor-lt 8 c b hc hb) e)

update_right :
    (a b d : ℕ)
    → a < 256
    → b < 256
    → d < 256
    → crc_ibutton_update a d ≡ crc_ibutton_update b d
    → a ≡ b
unfolding crc_ibutton_update
update_right a b d ha hb hd e = bit_xor-right a b d (
    crc_turns_injective (bit_xor a d) (bit_xor b d) (bit_xor-lt 8 a d ha hd)
      (bit_xor-lt 8 b d hb hd) e)

pub crc_from-lt : (c : ℕ) (s : Bytes) → c < 256 → IsByteList s → crc_from c s < 256
crc_from-lt c [] h hs = h
crc_from-lt c (d ∷ s) h (hd, hs) =
    crc_from-lt (crc_ibutton_update c d) s (crc_ibutton_update-lt c d h hd) hs

pub crc_from-append : (c : ℕ) (s t : Bytes) → crc_from c (s ++ t) ≡ crc_from (crc_from c s) t
crc_from-append c [] t = refl
crc_from-append c (d ∷ s) t = crc_from-append (crc_ibutton_update c d) s t

-- Different checksums so far end in different checksums.
crc_from_injective :
    (a b : ℕ) (s : Bytes) → a < 256 → b < 256 → IsByteList s → crc_from a s ≡ crc_from b s → a ≡ b
crc_from_injective a b [] ha hb hs e = e
crc_from_injective a b (d ∷ s) ha hb (hd, hs) e = update_right a b d ha hb hd (
    crc_from_injective (crc_ibutton_update a d) (crc_ibutton_update b d) s
      (crc_ibutton_update-lt a d ha hd) (crc_ibutton_update-lt b d hb hd) hs e)

-- A payload in which one byte has become another one has another checksum. All are bytes.
pub crc-one_byte :
    (s t : Bytes) (a b : ℕ)
    → IsByteList s
    → IsByteList t
    → a < 256
    → b < 256
    → a ≢ b
    → crc (s ++ (a ∷ t)) ≢ crc (s ++ (b ∷ t))
crc-one_byte s t a b hs ht ha hb ne e =
    let c = crc s in
    let hc : crc s < 256 = crc_from-lt 0 s (omega arith) hs in
    ne (
      update_left c a b hc ha hb (
        crc_from_injective (crc_ibutton_update c a) (crc_ibutton_update c b) t
          (crc_ibutton_update-lt c a hc ha) (crc_ibutton_update-lt c b hc hb) ht
          (sym (crc_from-append 0 s (a ∷ t)) ∙ e ∙ crc_from-append 0 s (b ∷ t))))
