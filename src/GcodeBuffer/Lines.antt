-- ===== src/GcodeBuffer/Lines.antt =====
-- src/drivers/GCodeBuffer.cpp, getNextLine and eraseLine: the lines at the front of the buffer.
use print3d.Prelude.{
  ℕ, zero, suc, ◌+◌, ◌-◌, Bool, true, false, ◌&&◌, Option, none, some, [], ◌∷◌, ltb, ◌==◌,
  if◌then◌else◌, length, drop, take,
}
use print3d.Prelude.Int.{pos, ◌-ℤ◌}
use print3d.Prelude.Text.{Bytes, lf, find, last?}
use print3d.GcodeBuffer.Cleanup.{ends_open}
use print3d.GcodeBuffer.State.{GcodeBuffer}

-- `b->find('\n', pos + 1)`; npos + 1 is 0.
abbrev pub after : Option ℕ → ℕ
after none = 0
after (some p) = p + 1

-- The rounds that are left, the bucket, the position of the last newline, and the counter.
unfoldable pub newline_loop : ℕ → Bytes → Option ℕ → ℕ → Option ℕ × ℕ
unfolding find
newline_loop zero s p counter = (p, counter)
newline_loop (suc i) s p counter = elim (find s lf (after p)) [
  | none ↦ (none, counter)
  | some q ↦ newline_loop i s (some q) (counter + 1)
]

-- An unended line at the end of the bucket counts too. An empty bucket has no last byte to read.
unfoldable pub count_open : Bytes → Option ℕ × ℕ → Option ℕ × ℕ
count_open s (none, counter) = (none, if ends_open (last? s) then counter + 1 else counter)
count_open s (some p, counter) = (some p, counter)

abbrev pub is_some : Option ℕ → Bool
is_some none = false
is_some (some _) = true

unfoldable pub seek_next : Bytes → ℕ → Option ℕ × ℕ
unfolding newline_loop count_open
seek_next s amount =
    let p = find s lf 0 in
    let counter = if is_some p then 1 else 0 in
    if ltb 1 amount && is_some p
    then count_open s (newline_loop (amount - 1) s p counter)
    else (p, counter)

abbrev pub before_place : Bytes → Option ℕ → Bytes
before_place s none = s
before_place s (some p) = take p s

-- The count that is returned, and the text that is stored in `line`.
unfoldable pub get_next_line : GcodeBuffer → ℕ → ℕ × Bytes
unfolding seek_next
get_next_line b amount = elim b.buckets [
  | [] ↦ (0, [])
  | s ∷ _ ↦ let sought = seek_next s amount in (sought.1, before_place s sought.0)
]

unfoldable pub seek_erase : Bytes → ℕ → Option ℕ × ℕ
unfolding newline_loop count_open
seek_erase s amount =
    let p = find s lf 0 in
    if ltb 1 amount then count_open s (newline_loop (amount - 1) s p 1) else (p, 1)

abbrev pub from_place : Bytes → Option ℕ → Bytes
from_place s none = []
from_place s (some p) = drop (p + 1) s

unfoldable pub erase_line : GcodeBuffer → ℕ → GcodeBuffer × ℕ
unfolding seek_erase
erase_line b amount = elim b.buckets [
  | [] ↦ (b, 0)
  | s ∷ bs ↦
      let sought = seek_erase s amount in
      let s' = from_place s sought.0 in
      (
        record b {
          buckets = if length s' == 0 then bs else s' ∷ bs;
          buffer_size = b.buffer_size -ℤ (pos (length s) -ℤ pos (length s'));
          buffered_lines = b.buffered_lines -ℤ pos sought.1;
        },
        sought.1,
      )
]
