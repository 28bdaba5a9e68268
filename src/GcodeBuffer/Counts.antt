-- ===== src/GcodeBuffer/Counts.antt =====
-- The line counters of the buffer, which every operation keeps right.
use print3d.Prelude.{
  ℕ, zero, suc, ◌+◌, ◌≡◌, refl, ap, sym, ◌∙◌, subst, false, Option, some, [], ◌++◌, arith, ltb,
  length, take, drop, inl, inr, ◌⊎◌, Bool-cases,
}
use print3d.Prelude.Text.{Bytes, lf, count, count-append, last?, drop-append}
use print3d.Prelude.Int.{ℤ, pos, ◌+ℤ◌, ◌≤ℤ◌}
use print3d.GcodeBuffer.Clean.{clean}
use print3d.GcodeBuffer.Cleanup.{cleanup, ends_open}
use print3d.GcodeBuffer.Clean.Newlines.{IsTidy, ends_open_behind}
use print3d.GcodeBuffer.Clean.Agree.{cleanup-append}
use print3d.GcodeBuffer.Clean.Whole.{IsWhole, IsWhole-IsTidy, IsWhole-append, clean-IsWhole}
use print3d.GcodeBuffer.State.{
  GcodeBuffer, MetaData, GcodeSetResult, open_back, back, clear, added_lines, update_stats,
  store_chunk, append_chunk, set_current_line,
}
use print3d.GcodeBuffer.Contents.{
  joined, AllWhole, back-IsWhole, open_back-AllWhole, append_chunk-AllWhole, append_chunk-joined,
}
use print3d.GcodeBuffer.Append.{
  chunk_length, housekeeping, append_loop, append_checked, sanity, append,
}

-- The buffer holds whole lines, counts them, and is never ahead of what was sent.
pub record IsValid (b : GcodeBuffer) : Type 0 where
  pub whole : AllWhole b.buckets
  pub counted : b.buffered_lines ≡ pos (count lf (joined b.buckets))
  pub sent : b.buffered_lines ≤ℤ b.total_lines_sent
  pub current : b.current_line ≤ℤ b.total_lines_sent

pub clear-IsValid : (b : GcodeBuffer) → IsValid (clear b)
unfolding clear
clear-IsValid b = record { whole = tt; counted = refl; sent = omega arith; current = omega arith }

pub set_current_line-IsValid :
    (b : GcodeBuffer) (line : ℤ) → IsValid b → IsValid (set_current_line b line)
unfolding set_current_line
set_current_line-IsValid b line v = record {
  whole = v.whole;
  counted = v.counted;
  sent = v.sent;
  current = ground arith;
}

tidy_closed : (s : Bytes) → IsTidy s → ends_open (last? s) ≡ false
tidy_closed s (inl e) = rw e refl
tidy_closed s (inr (f, e, h)) = rw (e, ends_open_behind f []) refl

-- Behind `a` the statistics see the lines of `x`.
added_lines-append : (a x : Bytes) → IsWhole (a ++ x) → added_lines (a ++ x) (length a) ≡ count lf x
unfolding added_lines
added_lines-append a x h =
    rw (drop-append a x, tidy_closed (a ++ x) (IsWhole-IsTidy (a ++ x) h)) (omega arith)

update_stats-counts :
    (b : GcodeBuffer) (s : Bytes) (at n old : ℕ)
    → added_lines s at ≡ n
    → b.buffered_lines ≡ pos old
    → b.buffered_lines ≤ℤ b.total_lines_sent
    → ((update_stats b s at).buffered_lines ≡ pos (old + n))
      × ((update_stats b s at).buffered_lines ≤ℤ (update_stats b s at).total_lines_sent)
      × ((update_stats b s at).current_line ≤ℤ (update_stats b s at).total_lines_sent)
unfolding update_stats ◌+ℤ◌
update_stats-counts b s at n old e h l = (ground arith, ground arith, ground arith)

append_chunk-IsValid :
    (b : GcodeBuffer) (gcode : Bytes) → IsValid b → IsValid (append_chunk b gcode)
unfolding append_chunk
append_chunk-IsValid b gcode v =
    let keep = b.keep_gpx_macro_comments in
    let a = back (open_back b.buckets) in
    let x = clean keep gcode in
    let old_whole = back-IsWhole (open_back b.buckets) (open_back-AllWhole b.buckets v.whole) in
    let cleaned = cleanup-append keep a gcode (IsWhole-IsTidy a old_whole) in
    let added : added_lines (cleanup keep (length a) (a ++ gcode)) (length a) ≡ count lf x =
      rw cleaned
        (added_lines-append a x (IsWhole-append a x old_whole (clean-IsWhole keep gcode))) in
    let counts =
      update_stats-counts (store_chunk b gcode) (cleanup keep (length a) (a ++ gcode)) (length a)
        (count lf x) (count lf (joined b.buckets)) added v.counted v.sent in
    record {
      whole = append_chunk-AllWhole b gcode v.whole;
      counted =
          counts.0
          ∙ ap pos (
              sym (
                ap (count lf) (append_chunk-joined b gcode v.whole)
                ∙ count-append lf (joined b.buckets) x));
      sent = counts.1;
      current = counts.2;
    }

append_loop-IsValid :
    (fuel : ℕ) (b : GcodeBuffer) (gcode : Bytes) (start : ℕ)
    → IsValid b
    → IsValid (append_loop fuel b gcode start)
unfolding append_loop
append_loop-IsValid zero b gcode start v = v
append_loop-IsValid (suc fuel) b gcode start v = elim (Bool-cases (ltb start (length gcode))) [
  | inl e ↦ rw e (
      let c = take (chunk_length gcode start) (drop start gcode) in
      append_loop-IsValid fuel (append_chunk b c) gcode (start + chunk_length gcode start)
        (append_chunk-IsValid b c v))
  | inr e ↦ rw e v
]

pub append_checked_buffer :
    (checked : GcodeSetResult) (b : GcodeBuffer) (gcode : Bytes) (total_lines : ℤ)
    (m : Option MetaData) (b' : GcodeBuffer) (r : GcodeSetResult)
    → append_checked checked b gcode total_lines m ≡ some (b', r)
    → (b' ≡ b) ⊎ (b' ≡ append_loop (length gcode) (housekeeping b total_lines m) gcode 0)
unfolding append_checked
append_checked_buffer checked b gcode total_lines m b' r h = ground arith

-- Whatever append answers, the buffer stays valid.
pub append-IsValid :
    (b : GcodeBuffer) (gcode : Bytes) (total_lines : ℤ) (m : Option MetaData) (b' : GcodeBuffer)
    (r : GcodeSetResult)
    → IsValid b
    → append b gcode total_lines m ≡ some (b', r)
    → IsValid b'
unfolding append housekeeping
append-IsValid b gcode total_lines m b' r v h =
    elim (append_checked_buffer (sanity b m) b gcode total_lines m b' r h) [
      | inl e ↦ subst (λ c. IsValid c) (sym e) v
      | inr e ↦
          subst (λ c. IsValid c) (sym e)
            (append_loop-IsValid (length gcode) (housekeeping b total_lines m) gcode 0
              (record { whole = v.whole; counted = v.counted; sent = v.sent; current = v.current }))
    ]
