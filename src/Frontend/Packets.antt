-- ===== src/Frontend/Packets.antt =====
-- src/frontends/communicator.c, comm_sendGCodeData: how the gcode is cut into packets.
use print3d.Prelude.{
  ℕ, zero, suc, ◌+◌, ◌-◌, ◌≤◌, ◌≡◌, ◌≢◌, refl, ap, sym, ◌∙◌, ◌⊎◌, inl, inr, Bool, true, false,
  Option, none, some, List, [], ◌∷◌, ◌++◌, arith, leb, ◌==◌, if◌then◌else◌, length, take, drop,
  length-take, Bool-cases, subst, leb→le,
}
use print3d.Prelude.Int.{ℤ, pos, negsuc, is_nonneg, eq_ℤ}
use print3d.Prelude.Text.{Bytes, lf}
use print3d.Ipc.Codes.{gcode_append}
use print3d.Ipc.Command.{Arg, short, long, blob, text}
use print3d.Frontend.Requests.{ask}

abbrev pub max_packet_size : ℕ
max_packet_size = 1024 - 8

-- The length of the text up to its last newline, and with it; 0 without one.
unfoldable pub line_end : Bytes → ℕ
line_end [] = 0
line_end (c ∷ s) = let n = line_end s in if n == 0 then if c == lf then 1 else 0 else suc n

-- The length of the next packet of the gcode that is left; 0 if a line is too long.
unfoldable pub packet_length : Bytes → ℕ
unfolding line_end
packet_length rest =
    if leb (length rest) max_packet_size then length rest else line_end (take max_packet_size rest)

-- `metadata`, which may be null, and its source, which may be too.
pub record Metadata : Type 0 where
  pub seq_number : ℤ
  pub seq_total : ℤ
  pub source : Option Bytes

abbrev pub source_args : Option Bytes → List Arg
source_args none = []
source_args (some s) = text s ∷ []

-- TRX_FIRST_CHUNK_BIT and TRX_LAST_CHUNK_BIT
abbrev pub packet_flags : Bool → Bool → ℕ
packet_flags first last = (if first then 1 else 0) + (if last then 2 else 0)

unfoldable pub packet_args : Bytes → Bool → Bool → ℤ → Option Metadata → List Arg
packet_args chunk first last total_lines none =
    blob chunk
    ∷ short (pos (packet_flags first last))
    ∷ long total_lines
    ∷ long (negsuc 0)
    ∷ long (negsuc 0)
    ∷ []
packet_args chunk first last total_lines (some m) =
    blob chunk
    ∷ short (pos (packet_flags first last))
    ∷ long total_lines
    ∷ long m.seq_number
    ∷ long m.seq_total
    ∷ source_args m.source

module _ {S : Type 0} (send_and_receive : S → Option Bytes → S × Option Bytes) where
  -- The rounds of the loop: what is left, whether no packet was sent yet, the value to return. Only
  -- -1 ends the loop early.
  unfoldable pub send_packets : ℕ → S → Bytes → Bool → ℤ → ℤ → Option Metadata → Option (S × ℤ)
  unfolding packet_length packet_args ask
  send_packets zero s rest first rv total_lines m = some (s, rv)
  send_packets (suc fuel) s rest first rv total_lines m =
      let n = packet_length rest in
      if length rest == 0
      then some (s, rv)
      else if n == 0
      then some (s, negsuc 0)
      else elim (ask send_and_receive s gcode_append
          (packet_args (take n rest) first (n == length rest) total_lines m) (pos 0)) [
            | none ↦ none
            | some r ↦
                let rv' = if is_nonneg r.2.result then rv else r.2.result in
                let more = send_packets fuel r.0 (drop n rest) false rv' total_lines m in
                if eq_ℤ rv' (negsuc 0) then some (r.0, rv') else more
          ]

  unfoldable pub send_gcode_data : S → Bytes → ℤ → Option Metadata → Option (S × ℤ)
  unfolding send_packets
  send_gcode_data s gcode total_lines m =
      send_packets (length gcode) s gcode true (pos 0) total_lines m

-- The text ends in a newline.
abbrev pub EndsLine : Bytes → Type 0
EndsLine s = (before : Bytes) × (s ≡ before ++ (lf ∷ []))

line_end-cons :
    (c : ℕ) (s : Bytes) → (line_end s == 0) ≡ false → line_end (c ∷ s) ≡ suc (line_end s)
unfolding line_end
line_end-cons c s h = rw (h, line_end) refl

line_end-cons_last :
    (c : ℕ) (s : Bytes) → (line_end s == 0) ≡ true → line_end (c ∷ s) ≡ (if c == lf then 1 else 0)
unfolding line_end
line_end-cons_last c s h = rw (h, line_end) refl

line_end-nil : line_end [] ≡ 0
unfolding line_end
line_end-nil = refl

-- A cut that ends in a newline, and lies within the text.
abbrev CutsLine : ℕ → Bytes → Type 0
CutsLine n s = (n ≤ length s) × EndsLine (take n s)

CutsLine-cons : (c n : ℕ) (s : Bytes) → CutsLine n s → CutsLine (suc n) (c ∷ s)
CutsLine-cons c n s (l, (before, e)) = (omega arith, (c ∷ before, ap (◌∷◌ c) e))

line_end-CutsLine : (s : Bytes) → line_end s ≢ 0 → CutsLine (line_end s) s
line_end-CutsLine [] h = absurd (h line_end-nil)
line_end-CutsLine (c ∷ s) h = elim (Bool-cases (line_end s == 0)) [
  | inr e ↦
      subst (λ n. CutsLine n (c ∷ s)) (sym (line_end-cons c s e))
        (CutsLine-cons c (line_end s) s (line_end-CutsLine s (ground arith)))
  | inl e ↦ elim (Bool-cases (c == lf)) [
    | inl f ↦
        let k : c ≡ lf = ground arith in
        let one : (if c == lf then 1 else 0) ≡ 1 = rw f refl in
        subst (λ n. CutsLine n (c ∷ s)) (sym (line_end-cons_last c s e ∙ one))
          (omega arith, ([], ap (λ x. x ∷ []) k))
    | inr f ↦
        let none_found : (if c == lf then 1 else 0) ≡ 0 = rw f refl in
        absurd (h (line_end-cons_last c s e ∙ none_found))
  ]
]

take-take : (m n : ℕ) (s : Bytes) → m ≤ length (take n s) → take m (take n s) ≡ take m s
take-take zero n s h = refl
take-take (suc m) zero s h = absurd (omega arith)
take-take (suc m) (suc n) [] h = refl
take-take (suc m) (suc n) (c ∷ s) h = ap (◌∷◌ c) (take-take m n s (omega arith))

-- What a packet is: not empty, within the limit, and cut behind a newline or at the end.
pub record IsPacket (rest : Bytes) (n : ℕ) : Type 0 where
  pub fits : n ≤ max_packet_size
  pub within : n ≤ length rest
  pub ends : (n ≡ length rest) ⊎ EndsLine (take n rest)

whole-IsPacket : (rest : Bytes) → length rest ≤ max_packet_size → IsPacket rest (length rest)
whole-IsPacket rest h = record { fits = h; within = omega arith; ends = inl refl }

cut-IsPacket : (rest : Bytes) (n : ℕ) → CutsLine n (take max_packet_size rest) → IsPacket rest n
cut-IsPacket rest n (l, (before, e)) =
    let size = length-take max_packet_size rest in
    record {
      fits = omega arith;
      within = omega arith;
      ends = inr (before, sym (take-take n max_packet_size rest l) ∙ e);
    }

packet_length-short :
    (rest : Bytes) → leb (length rest) max_packet_size ≡ true → packet_length rest ≡ length rest
unfolding packet_length
packet_length-short rest h = rw (h, packet_length) refl

packet_length-long :
    (rest : Bytes)
    → leb (length rest) max_packet_size ≡ false
    → packet_length rest ≡ line_end (take max_packet_size rest)
unfolding packet_length
packet_length-long rest h = rw (h, packet_length) refl

-- A packet that is cut off the gcode is within the packet size and ends in a newline, unless it is
-- all that is left.
pub packet_length-IsPacket :
    (rest : Bytes) → packet_length rest ≢ 0 → IsPacket rest (packet_length rest)
packet_length-IsPacket rest h = elim (Bool-cases (leb (length rest) max_packet_size)) [
  | inl e ↦
      subst (λ n. IsPacket rest n) (sym (packet_length-short rest e))
        (whole-IsPacket rest (leb→le (length rest) max_packet_size e))
  | inr e ↦
      let long_cut = packet_length-long rest e in
      subst (λ n. IsPacket rest n) (sym long_cut)
        (cut-IsPacket rest (line_end (take max_packet_size rest))
          (line_end-CutsLine (take max_packet_size rest) (λ z. h (long_cut ∙ z))))
]
