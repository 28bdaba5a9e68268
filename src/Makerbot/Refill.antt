-- ===== src/Makerbot/Refill.antt =====
-- Refilling the queue from the gcode buffer: what one text adds, and that the loop comes to an end.
use print3d.Prelude.{
  ℕ, zero, suc, ◌+◌, ◌-◌, ◌&&◌, ◌≤◌, ◌<◌, ◌≡◌, ◌≢◌, refl, ap, sym, ◌∙◌, ◌⊎◌, inl, inr, Bool, true,
  false, Option, none, some, List, [], ◌∷◌, ◌++◌, arith, ltb, ◌==◌, if◌then◌else◌, length,
  length-append, length-drop, Bool-cases,
}
use print3d.Prelude.Int.{pos, ◌+ℤ◌}
use print3d.Prelude.Text.{Bytes, find}
use print3d.GcodeBuffer.State.{GcodeBuffer, set_current_line}
use print3d.GcodeBuffer.Contents.{joined}
use print3d.GcodeBuffer.Lines.{
  get_next_line, seek_next, newline_loop, count_open, seek_erase, from_place, erase_line,
}
use print3d.Driver.State.{Driver}
use print3d.Makerbot.Parser.{Parser, parse_all}
use print3d.Makerbot.Parser.Plain.{AllPlain, wire, parse_all-wire}
use print3d.Makerbot.State.{Makerbot, gcode_cvt_lines, queue_fill_size}
use print3d.Makerbot.Queue.{
  queue_commands, with_commands, convert_gcode, consume, refill_turn, refill,
}

from_place-shorter : (s : Bytes) (p : Option ℕ) → s ≢ [] → length (from_place s p) < length s
from_place-shorter [] p h = absurd (h refl)
from_place-shorter (c ∷ s) none h = omega arith
from_place-shorter (c ∷ s) (some p) h = omega (arith, length-drop (p + 1) (c ∷ s))

abbrev rest_buckets : Bytes → List Bytes → List Bytes
rest_buckets s bs = if length s == 0 then bs else s ∷ bs

rest-shorter :
    (s t : Bytes) (bs : List Bytes)
    → length t < length s
    → length (joined (rest_buckets t bs)) < length (joined (s ∷ bs))
rest-shorter s [] bs h = omega (arith, length-append s (joined bs))
rest-shorter s (c ∷ t) bs h =
    let e : (length (c ∷ t) == 0) ≡ false = ground arith in
    rw e (omega (arith, length-append s (joined bs), length-append (c ∷ t) (joined bs)))

if_no_line : (b : Bool) (x : Option ℕ × ℕ) → (if b && false then x else (none, 0)).1 ≡ 0
if_no_line true x = refl
if_no_line false x = refl

seek_next-nil : (n : ℕ) → (seek_next [] n).1 ≡ 0
unfolding seek_next find newline_loop count_open
seek_next-nil n = if_no_line (ltb 1 n) (count_open [] (newline_loop (n - 1) [] none 0))

module _ (b : GcodeBuffer) (n amt : ℕ) where
  shown_of_none : b.buckets ≡ [] → (get_next_line b n).0 ≡ 0
  unfolding get_next_line
  shown_of_none e = rw e refl

  shown_of_front :
      (s : Bytes) (bs : List Bytes) → b.buckets ≡ s ∷ bs → (get_next_line b n).0 ≡ (seek_next s n).1
  unfolding get_next_line
  shown_of_front s bs e = rw e refl

  erased_of_front :
      (s : Bytes) (bs : List Bytes)
      → b.buckets ≡ s ∷ bs
      → (erase_line b amt).0.buckets ≡ rest_buckets (from_place s (seek_erase s amt).0) bs
  unfolding erase_line
  erased_of_front s bs e = rw e refl

  -- Lines that are shown are lines that leave the buffer.
  erase_line-shorter :
      (get_next_line b n).0 ≢ 0
      → length (joined (erase_line b amt).0.buckets) < length (joined b.buckets)
  erase_line-shorter h = go b.buckets refl
    where
      go :
          (bs : List Bytes)
          → b.buckets ≡ bs
          → length (joined (erase_line b amt).0.buckets) < length (joined b.buckets)
      go [] e = absurd (h (shown_of_none e))
      go (s ∷ bs) e =
          let old : length (joined b.buckets) ≡ length (joined (s ∷ bs)) =
            ap (λ t. length (joined t)) e in
          let new = ap (λ t. length (joined t)) (erased_of_front s bs e) in
          let filled : s ≢ [] =
            λ q. h (shown_of_front s bs e ∙ ap (λ t. (seek_next t n).1) q ∙ seek_next-nil n) in
          let shorter =
            rest-shorter s (from_place s (seek_erase s amt).0) bs
              (from_place-shorter s (seek_erase s amt).0 filled) in
          omega (arith, old, new, shorter)

-- What a text of commands whose size follows from the format adds to the queue: those commands, as
-- they stand and in their order. The text is not empty, and gpx makes those commands of it.
pub convert_gcode-wire :
    (gpx_convert : List Bytes → Bytes → Bytes) (d : Makerbot) (c : ℕ) (gcode : Bytes)
    (commands : List Bytes)
    → gpx_convert d.converted (c ∷ gcode) ≡ wire commands
    → AllPlain commands
    → convert_gcode gpx_convert d (c ∷ gcode)
      ≡ some (
        length commands,
        record d { queue = d.queue ++ commands; converted = (c ∷ gcode) ∷ d.converted },
      )
unfolding convert_gcode queue_commands
convert_gcode-wire gpx_convert d c gcode commands e h =
    let code = gpx_convert d.converted (c ∷ gcode) in
    let p : Parser = record { unread = code; line_number = 0; commands = [] } in
    let l : length (wire commands) ≤ length code = omega (arith, ap (λ s. length s) e) in
    let filled : (length (c ∷ gcode) == 0) ≡ false = ground arith in
    rw (convert_gcode, filled)
      (ap (with_commands d (c ∷ gcode)) (parse_all-wire (length code) p commands h l e))

abbrev consumed : ℕ → GcodeBuffer → GcodeBuffer
consumed amt b =
    if ltb 0 amt
    then set_current_line (erase_line b amt).0 ((erase_line b amt).0.current_line +ℤ pos amt)
    else b

abbrev consumed_some : ℕ → GcodeBuffer → GcodeBuffer
consumed_some amt b =
    set_current_line (erase_line b (suc amt)).0
      ((erase_line b (suc amt)).0.current_line +ℤ pos (suc amt))

-- A turn shows some lines, and the buffer loses them.
abbrev Turned : Makerbot → Option (ℕ × Makerbot) → Type 0
Turned d none = Unit
Turned d (some (amt, e)) =
    (amt ≡ (get_next_line d.base.gcode_buffer gcode_cvt_lines).0)
    × (e.base.gcode_buffer ≡ consumed amt d.base.gcode_buffer)

abbrev KeepsBase : Makerbot → Option (ℕ × Makerbot) → Type 0
KeepsBase d none = Unit
KeepsBase d (some (n, e)) = e.base ≡ d.base

module _ (gpx_convert : List Bytes → Bytes → Bytes) where
  with_commands-KeepsBase :
      (d : Makerbot) (gcode : Bytes) (o : Option Parser) → KeepsBase d (with_commands d gcode o)
  unfolding queue_commands
  with_commands-KeepsBase d gcode none = tt
  with_commands-KeepsBase d gcode (some p) = refl

  if_KeepsBase :
      (d : Makerbot) (b : Bool) (o p : Option (ℕ × Makerbot))
      → KeepsBase d o
      → KeepsBase d p
      → KeepsBase d (if b then o else p)
  if_KeepsBase d true o p h k = h
  if_KeepsBase d false o p h k = k

  convert_gcode-KeepsBase :
      (d : Makerbot) (gcode : Bytes) → KeepsBase d (convert_gcode gpx_convert d gcode)
  unfolding convert_gcode
  convert_gcode-KeepsBase d gcode = if_KeepsBase d (length gcode == 0) (some (0, d)) _ refl (
      with_commands-KeepsBase d gcode (
        parse_all (length (gpx_convert d.converted gcode))
          (record { unread = gpx_convert d.converted gcode; line_number = 0; commands = [] })))

  consume-buffer :
      (amt : ℕ) (d e : Makerbot)
      → e.base ≡ d.base
      → (consume amt e).base.gcode_buffer ≡ consumed amt d.base.gcode_buffer
  unfolding consume set_current_line
  consume-buffer zero d e h = ap (λ (b : Driver). b.gcode_buffer) h
  consume-buffer (suc amt) d e h =
      let t : ltb 0 (suc amt) ≡ true = ground arith in
      rw (consume, t) (ap (λ (b : Driver). consumed_some amt b.gcode_buffer) h)

  then_Turned :
      (d : Makerbot) (next : ℕ × Bytes) (o : Option (ℕ × Makerbot))
      → next ≡ get_next_line d.base.gcode_buffer gcode_cvt_lines
      → KeepsBase d o
      → Turned d (elim o [ none ↦ none | some (n, e) ↦ some (next.0, consume next.0 e) ])
  then_Turned d next none q h = tt
  then_Turned d next (some (n, e)) q h = (ap (λ t. t.0) q, consume-buffer next.0 d e h)

  refill_turn-Turned : (d : Makerbot) → Turned d (refill_turn gpx_convert d)
  unfolding refill_turn
  refill_turn-Turned d =
      let next = get_next_line d.base.gcode_buffer gcode_cvt_lines in
      then_Turned d next (convert_gcode gpx_convert d next.1) refl
        (convert_gcode-KeepsBase d next.1)

  -- The queue is filled, or the buffer has no line left.
  abbrev pub Refilled : Option Makerbot → Type 0
  Refilled none = Unit
  Refilled (some e) =
      (queue_fill_size ≤ length e.queue)
      ⊎ ((get_next_line e.base.gcode_buffer gcode_cvt_lines).0 ≡ 0)

  consumed-shorter :
      (b c : GcodeBuffer) (amt : ℕ)
      → suc amt ≡ (get_next_line b gcode_cvt_lines).0
      → c ≡ consumed_some amt b
      → length (joined c.buckets) < length (joined b.buckets)
  unfolding set_current_line
  consumed-shorter b c amt n e =
      let same : length (joined c.buckets) ≡ length (joined (erase_line b (suc amt)).0.buckets) =
        ap (λ (b : GcodeBuffer). length (joined b.buckets)) e in
      let shorter = erase_line-shorter b gcode_cvt_lines (suc amt) (λ z. absurd (omega arith)) in
      omega (arith, same, shorter)

  behind_turn :
      (fuel : ℕ) (d : Makerbot) (o : Option (ℕ × Makerbot))
      → Turned d o
      → length (joined d.base.gcode_buffer.buckets) < suc fuel
      → ((e : Makerbot)
          → length (joined e.base.gcode_buffer.buckets) < fuel
          → Refilled (refill gpx_convert fuel e))
      → Refilled (elim o [
        | none ↦ none
        | some (zero, e) ↦ some e
        | some (suc amt, e) ↦ refill gpx_convert fuel e
      ])
  behind_turn fuel d none t h rest = tt
  behind_turn fuel d (some (zero, e)) (n, k) h rest =
      inr (ap (λ b. (get_next_line b gcode_cvt_lines).0) k ∙ sym n)
  behind_turn fuel d (some (suc amt, e)) (n, k) h rest =
      let c : e.base.gcode_buffer ≡ consumed_some amt d.base.gcode_buffer =
        let t : ltb 0 (suc amt) ≡ true = ground arith in
        k ∙ ap (λ x. if x then consumed_some amt d.base.gcode_buffer else d.base.gcode_buffer) t in
      let shorter = consumed-shorter d.base.gcode_buffer e.base.gcode_buffer amt n c in
      rest e (omega (arith, shorter))

  -- With one turn more than the gcode buffer has bytes the loop that refills the queue ends for one
  -- of its two reasons: the queue has its size, or the buffer has no line left.
  pub refill-Refilled :
      (fuel : ℕ) (d : Makerbot)
      → length (joined d.base.gcode_buffer.buckets) < fuel
      → Refilled (refill gpx_convert fuel d)
  refill-Refilled zero d h = absurd (omega arith)
  refill-Refilled (suc fuel) d h = elim (Bool-cases (ltb (length d.queue) queue_fill_size)) [
    | inr e ↦ rw (refill, e) (inl (ground (arith, e)))
    | inl e ↦
        rw (refill, e)
          (behind_turn fuel d (refill_turn gpx_convert d) (refill_turn-Turned d) h
            (refill-Refilled fuel))
  ]
