-- ===== src/Driver/Reading.antt =====
-- src/utils.c, readAndAppendAvailableData: reading what a descriptor has to the end of a buffer.
-- Driver/Port has the events that the system calls answer with.
use print3d.Prelude.{
  ℕ, ◌+◌, ◌≡◌, refl, ap, sym, ◌∙◌, Bool, true, false, ◌&&◌, List, [], ◌∷◌, ◌++◌, arith, ltb,
  if◌then◌else◌, length, take, drop, append_assoc, append-nil, length-append, take-append-drop, inl,
  inr, Bool-cases,
}
use print3d.Prelude.Text.{Bytes}
use print3d.Driver.Port.{
  PortEvent, received, blocked, interrupted, failed, Outcome, value, minus_two, minus_one, still,
}

abbrev pub read_buf_size : ℕ
read_buf_size = 1024

-- The exit value, the buffer, and the events that are left. `total` counts what was read before. One
-- read takes up to 1024 bytes; unless `only_once` the next rounds take the rest of what has come.
unfoldable pub read_available :
    Bool → ℕ → List PortEvent → Bytes → ℕ → (Outcome × Bytes) × List PortEvent
read_available only_once timeout [] buf total = ((value total, buf), [])
read_available only_once timeout (received [] ∷ es) buf total = ((minus_two, buf), es)
read_available only_once timeout (received (b ∷ bs) ∷ es) buf total =
    let one = take read_buf_size (b ∷ bs) in
    let rest = read_available only_once timeout es (buf ++ (b ∷ bs)) (total + length (b ∷ bs)) in
    if only_once
    then ((value (total + length one), buf ++ one), still (drop read_buf_size (b ∷ bs)) es)
    else rest
read_available only_once timeout (blocked ready ∷ es) buf total =
    let rest = read_available only_once timeout es buf total in
    if ltb 0 timeout && ready then rest else ((value total, buf), es)
read_available only_once timeout (interrupted ∷ es) buf total =
    read_available only_once timeout es buf total
read_available only_once timeout (failed e ∷ es) buf total = ((minus_one e, buf), es)

-- All bytes that are still to come.
abbrev pub incoming : List PortEvent → Bytes
incoming [] = []
incoming (received bs ∷ es) = bs ++ incoming es
incoming (blocked ready ∷ es) = incoming es
incoming (interrupted ∷ es) = incoming es
incoming (failed e ∷ es) = incoming es

-- A count is that of the bytes gained, added to the count before.
abbrev pub Counts : Outcome → ℕ → Bytes → Type 0
Counts (value n) total gained = n ≡ total + length gained
Counts minus_two total gained = Unit
Counts (minus_one e) total gained = Unit

-- Nothing is lost and nothing is read twice: what the buffer gains is what is no longer to come, in
-- its order.
pub record Conserves (es : List PortEvent) (buf : Bytes) (total : ℕ)
    (r : (Outcome × Bytes) × List PortEvent) : Type 0 where
  pub gained : Bytes
  pub grown : r.0.1 ≡ buf ++ gained
  pub in_order : gained ++ incoming r.1 ≡ incoming es
  pub counted : Counts r.0.0 total gained

unchanged :
    (es : List PortEvent) (buf : Bytes) (total : ℕ) (o : Outcome) (rest : List PortEvent)
    → incoming rest ≡ incoming es
    → Counts o total []
    → Conserves es buf total ((o, buf), rest)
unchanged es buf total o rest e c = record {
  gained = [];
  grown = sym (append-nil buf);
  in_order = e;
  counted = c;
}

incoming-still : (bs : Bytes) (es : List PortEvent) → incoming (still bs es) ≡ bs ++ incoming es
incoming-still [] es = refl
incoming-still (b ∷ bs) es = refl

one_read :
    (b : ℕ) (bs : Bytes) (es : List PortEvent) (buf : Bytes) (total : ℕ)
    → Conserves (received (b ∷ bs) ∷ es) buf total (
      (value (total + length (take read_buf_size (b ∷ bs))), buf ++ take read_buf_size (b ∷ bs)),
      still (drop read_buf_size (b ∷ bs)) es,
    )
one_read b bs es buf total = record {
  gained = take read_buf_size (b ∷ bs);
  grown = refl;
  in_order =
      ap (λ t. take read_buf_size (b ∷ bs) ++ t) (incoming-still (drop read_buf_size (b ∷ bs)) es)
      ∙ sym (append_assoc (take read_buf_size (b ∷ bs)) (drop read_buf_size (b ∷ bs)) (incoming es))
      ∙ ap (λ t. t ++ incoming es) (take-append-drop read_buf_size (b ∷ bs));
  counted = refl;
}

Counts-more :
    (o : Outcome) (total : ℕ) (one rest : Bytes)
    → Counts o (total + length one) rest
    → Counts o total (one ++ rest)
Counts-more (value n) total one rest h = omega (arith, length-append one rest)
Counts-more minus_two total one rest h = tt
Counts-more (minus_one e) total one rest h = tt

read_on :
    (one : Bytes) (es : List PortEvent) (buf : Bytes) (total : ℕ)
    (r : (Outcome × Bytes) × List PortEvent)
    → Conserves es (buf ++ one) (total + length one) r
    → Conserves (received one ∷ es) buf total r
read_on one es buf total r c = record {
  gained = one ++ c.gained;
  grown = c.grown ∙ append_assoc buf one c.gained;
  in_order = append_assoc one c.gained (incoming r.1) ∙ ap (λ t. one ++ t) c.in_order;
  counted = Counts-more r.0.0 total one c.gained c.counted;
}

-- An event without bytes.
skip :
    (v : PortEvent) (es : List PortEvent) (buf : Bytes) (total : ℕ)
    (r : (Outcome × Bytes) × List PortEvent)
    → incoming (v ∷ es) ≡ incoming es
    → Conserves es buf total r
    → Conserves (v ∷ es) buf total r
skip v es buf total r e c = record {
  gained = c.gained;
  grown = c.grown;
  in_order = c.in_order ∙ sym e;
  counted = c.counted;
}

-- Reading loses no byte and reads none twice, whatever the system calls answer, with or without
-- `only_once` and a timeout: the buffer keeps what it had, gains what is no longer to come, in its
-- order, and a count that is returned is that of the bytes gained.
pub read_available-Conserves :
    (only_once : Bool) (timeout : ℕ) (es : List PortEvent) (buf : Bytes) (total : ℕ)
    → Conserves es buf total (read_available only_once timeout es buf total)
unfolding read_available
read_available-Conserves only_once timeout [] buf total =
    unchanged [] buf total (value total) [] refl (omega arith)
read_available-Conserves only_once timeout (received [] ∷ es) buf total =
    unchanged (received [] ∷ es) buf total minus_two es refl tt
read_available-Conserves true timeout (received (b ∷ bs) ∷ es) buf total =
    one_read b bs es buf total
read_available-Conserves false timeout (received (b ∷ bs) ∷ es) buf total =
    read_on (b ∷ bs) es buf total _
      (read_available-Conserves false timeout es (buf ++ (b ∷ bs)) (total + length (b ∷ bs)))
read_available-Conserves only_once timeout (blocked ready ∷ es) buf total =
    elim (Bool-cases (ltb 0 timeout && ready)) [
      | inl e ↦ rw e (
          skip (blocked ready) es buf total _ refl
            (read_available-Conserves only_once timeout es buf total))
      | inr e ↦ rw e (unchanged (blocked ready ∷ es) buf total (value total) es refl (omega arith))
    ]
read_available-Conserves only_once timeout (interrupted ∷ es) buf total =
    skip interrupted es buf total _ refl (read_available-Conserves only_once timeout es buf total)
read_available-Conserves only_once timeout (failed e ∷ es) buf total =
    unchanged (failed e ∷ es) buf total (minus_one e) es refl tt
