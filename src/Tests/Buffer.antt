-- ===== src/Tests/Buffer.antt =====
-- src/drivers/GCodeBuffer.cpp at concrete inputs.
use print3d.Prelude.{◌≡◌, ◌≢◌, ◌↔◌, refl, none, some, [], ◌∷◌, ◌++◌, true, false, inr, arith}
use print3d.Prelude.Int.{◌+ℤ◌, ◌-ℤ◌, pos, negsuc}
use print3d.Prelude.Text.{Bytes, codes}
use print3d.GcodeBuffer.Clean.{clean}
use print3d.GcodeBuffer.Clean.Whole.{whole_lines}
use print3d.GcodeBuffer.Clean.Agree.{cleanup-append}
use print3d.GcodeBuffer.Cleanup.{cleanup}
use print3d.GcodeBuffer.State.{GcodeBuffer, MetaData, new, ok, seq_num_mismatch, clear}
use print3d.GcodeBuffer.Append.{append}
use print3d.GcodeBuffer.Lines.{get_next_line}
use print3d.GcodeBuffer.Chunks.{Adds, append-Adds}
use print3d.GcodeBuffer.Counts.{IsValid, clear-IsValid, append-IsValid}
use print3d.GcodeBuffer.Front.{TakesLine, erase_line-TakesLine}
use print3d.GcodeBuffer.Sequence.{
  Expects, Follows, append_rejected, append-Follows, append-append-Follows, append_null_iff,
}

abbrev gcode : Bytes
gcode = codes "G1;c\r\n\nM2"

abbrev numbered : MetaData
numbered = record { seq_number = pos 0; seq_total = pos 2; source = none }

abbrev next : MetaData
next = record { seq_number = pos 1; seq_total = pos 2; source = none }

abbrev after_first : GcodeBuffer
after_first = record {
  buckets = codes "G1\nM2\n" ∷ [];
  current_line = pos 0;
  buffered_lines = pos 2;
  total_lines_sent = pos 2;
  explicit_total_lines = negsuc 0;
  buffer_size = pos 6;
  md = numbered;
  keep_gpx_macro_comments = false;
}

abbrev after_second : GcodeBuffer
after_second = record after_first {
  buckets = codes "G1\nM2\nG1\nM2\n" ∷ [];
  buffered_lines = pos 4;
  total_lines_sent = pos 4;
  buffer_size = pos 12;
  md = next;
}

first_run : append new gcode (negsuc 0) (some numbered) ≡ some (after_first, ok)
unfolding append ◌+ℤ◌ ◌-ℤ◌
first_run = refl

second_run : append after_first gcode (negsuc 0) (some next) ≡ some (after_second, ok)
unfolding append ◌+ℤ◌ ◌-ℤ◌
second_run = refl

refused_run :
    append after_first gcode (negsuc 0) (some numbered) ≡ some (after_first, seq_num_mismatch)
unfolding append ◌+ℤ◌ ◌-ℤ◌
refused_run = refl

cleanup_run : cleanup true 3 (codes "G1\n;@go\r;x\nM2") ≡ codes "G1\n;@go\nM2\n"
unfolding cleanup
cleanup_run = refl

line_run : get_next_line after_first 1 ≡ (1, codes "G1")
unfolding get_next_line
line_run = refl

new-IsValid : IsValid new
unfolding clear
new-IsValid = clear-IsValid new

append-Adds_example : Adds [] (clean false gcode) after_first
append-Adds_example = append-Adds new gcode (negsuc 0) (some numbered) after_first tt first_run

cleanup-append_example :
    cleanup true 3 (codes "G1\n" ++ codes "G;x\r;@y")
    ≡ codes "G1\n" ++ clean true (codes "G;x\r;@y")
cleanup-append_example =
    cleanup-append true (codes "G1\n") (codes "G;x\r;@y") (inr (codes "G1", refl, refl))

append-IsValid_example : IsValid after_first
append-IsValid_example =
    append-IsValid new gcode (negsuc 0) (some numbered) after_first ok new-IsValid first_run

after_first-IsValid : IsValid after_first
unfolding whole_lines
after_first-IsValid = record {
  whole = (refl, tt);
  counted = refl;
  sent = omega arith;
  current = omega arith;
}

front_nonempty : codes "G1\nM2\n" ≢ []
front_nonempty e = cc

erase_line-TakesLine_example : TakesLine after_first
erase_line-TakesLine_example =
    erase_line-TakesLine after_first (codes "G1\nM2\n") [] after_first-IsValid refl front_nonempty

append-Follows_example : Follows numbered next
append-Follows_example = append-Follows after_first gcode (negsuc 0) next after_second second_run

append-append-Follows_example : Follows numbered next
append-append-Follows_example =
    append-append-Follows new after_first after_second gcode gcode (negsuc 0) (negsuc 0) numbered
      next first_run second_run

append_rejected_example : after_first ≡ after_first
append_rejected_example =
    append_rejected after_first gcode (negsuc 0) (some numbered) after_first seq_num_mismatch
      refused_run (λ e. cc)

append_null_iff_example : (append after_first gcode (negsuc 0) none ≡ none) ↔ Expects numbered
append_null_iff_example = append_null_iff after_first gcode (negsuc 0)
