-- ===== src/GcodeBuffer/Packed.antt =====
-- Which buckets of the buffer may be empty: only the last one. An empty bucket in front of others
-- would hide their lines from getNextLine.
use print3d.Prelude.{
  ℕ, zero, suc, ◌+◌, ◌≡◌, ◌≢◌, sym, subst, Option, some, List, [], ◌∷◌, arith, leb, ltb, true,
  false, ◌==◌, if◌then◌else◌, length, take, drop, inl, inr, Bool-cases,
}
use print3d.Prelude.Int.{ℤ}
use print3d.Prelude.Text.{Bytes}
use print3d.GcodeBuffer.State.{
  GcodeBuffer, MetaData, GcodeSetResult, open_back, set_back, append_chunk, max_bucket_size,
}
use print3d.GcodeBuffer.Append.{chunk_length, housekeeping, append_loop, sanity, append}
use print3d.GcodeBuffer.Lines.{from_place, seek_erase, erase_line}
use print3d.GcodeBuffer.Counts.{append_checked_buffer}

abbrev pub Packed : List Bytes → Type 0
Packed [] = Unit
Packed (s ∷ []) = Unit
Packed (s ∷ t ∷ bs) = (s ≢ []) × Packed (t ∷ bs)

pub Packed-tail : (s : Bytes) (bs : List Bytes) → Packed (s ∷ bs) → Packed bs
Packed-tail s [] h = tt
Packed-tail s (t ∷ bs) h = h.1

pub Packed-cons : (s : Bytes) (bs : List Bytes) → s ≢ [] → Packed bs → Packed (s ∷ bs)
Packed-cons s [] ne h = tt
Packed-cons s (t ∷ bs) ne h = (ne, h)

long_ne : (s : Bytes) → leb max_bucket_size (length s) ≡ true → s ≢ []
long_ne [] h e = absurd (ground arith)
long_ne (x ∷ s) h e = cc

open_back-Packed : (bs : List Bytes) → Packed bs → Packed (open_back bs)
unfolding open_back
open_back-Packed [] h = tt
open_back-Packed (b ∷ []) h = elim (Bool-cases (leb max_bucket_size (length b))) [
  | inl e ↦ rw e (long_ne b e, tt)
  | inr e ↦ rw e tt
]
open_back-Packed (b ∷ c ∷ bs) h =
    Packed-cons b (open_back (c ∷ bs)) h.0 (open_back-Packed (c ∷ bs) h.1)

set_back-Packed : (bs : List Bytes) (s : Bytes) → Packed bs → Packed (set_back bs s)
unfolding set_back
set_back-Packed [] s h = tt
set_back-Packed (b ∷ []) s h = tt
set_back-Packed (b ∷ c ∷ bs) s h =
    Packed-cons b (set_back (c ∷ bs) s) h.0 (set_back-Packed (c ∷ bs) s h.1)

append_chunk-Packed :
    (b : GcodeBuffer) (gcode : Bytes) → Packed b.buckets → Packed (append_chunk b gcode).buckets
unfolding append_chunk
append_chunk-Packed b gcode h =
    set_back-Packed (open_back b.buckets) _ (open_back-Packed b.buckets h)

append_loop-Packed :
    (fuel : ℕ) (b : GcodeBuffer) (gcode : Bytes) (start : ℕ)
    → Packed b.buckets
    → Packed (append_loop fuel b gcode start).buckets
unfolding append_loop
append_loop-Packed zero b gcode start h = h
append_loop-Packed (suc fuel) b gcode start h = elim (Bool-cases (ltb start (length gcode))) [
  | inl e ↦ rw e (
      let c = take (chunk_length gcode start) (drop start gcode) in
      append_loop-Packed fuel (append_chunk b c) gcode (start + chunk_length gcode start)
        (append_chunk-Packed b c h))
  | inr e ↦ rw e h
]

-- Whatever append answers, no bucket but the last one is empty if none was before.
pub append-Packed :
    (b : GcodeBuffer) (gcode : Bytes) (total_lines : ℤ) (m : Option MetaData) (b' : GcodeBuffer)
    (r : GcodeSetResult)
    → Packed b.buckets
    → append b gcode total_lines m ≡ some (b', r)
    → Packed b'.buckets
unfolding append housekeeping
append-Packed b gcode total_lines m b' r p h =
    elim (append_checked_buffer (sanity b m) b gcode total_lines m b' r h) [
      | inl e ↦ subst (λ c. Packed c.buckets) (sym e) p
      | inr e ↦
          subst (λ c. Packed c.buckets) (sym e)
            (append_loop-Packed (length gcode) (housekeeping b total_lines m) gcode 0 p)
    ]

kept-Packed :
    (s : Bytes) (bs : List Bytes) → Packed bs → Packed (if length s == 0 then bs else s ∷ bs)
kept-Packed [] bs h = h
kept-Packed (x ∷ s) bs h =
    let e : (length (x ∷ s) == 0) ≡ false = ground arith in
    rw e (Packed-cons (x ∷ s) bs (λ z. cc) h)

erase_line-kept :
    (b : GcodeBuffer) (s : Bytes) (bs : List Bytes)
    → b.buckets ≡ s ∷ bs
    → Packed bs
    → Packed (erase_line b 1).0.buckets
unfolding erase_line
erase_line-kept b s bs front h = rw front (kept-Packed (from_place s (seek_erase s 1).0) bs h)

-- An erased line leaves no empty bucket in front.
pub erase_line-Packed :
    (b : GcodeBuffer) (s : Bytes) (bs : List Bytes)
    → b.buckets ≡ s ∷ bs
    → Packed b.buckets
    → Packed (erase_line b 1).0.buckets
erase_line-Packed b s bs front h =
    erase_line-kept b s bs front (Packed-tail s bs (subst (λ t. Packed t) front h))
