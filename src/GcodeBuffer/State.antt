-- ===== src/GcodeBuffer/State.antt =====
-- src/drivers/GCodeBuffer.{h,cpp}: the members of the class, its constants, and the operations on
-- one chunk. Machine sizes are those of a 64-bit `size_t`; `int32_t` counters are integers.
use print3d.Prelude.{
  ℕ, ◌+◌, ◌*◌, Bool, false, Option, none, List, [], ◌∷◌, ◌++◌, leb, if◌then◌else◌, length, drop,
}
use print3d.Prelude.Int.{ℤ, pos, negsuc, ◌+ℤ◌, ◌-ℤ◌, ltb_ℤ}
use print3d.Prelude.Text.{Bytes, lf, codes, count, last?}
use print3d.GcodeBuffer.Cleanup.{kept, emptied, ends_open, scan_comments, tidy_newlines, cleanup}

pub data GcodeSetResult : Type 0 where
  ok buffer_full seq_num_missing seq_num_mismatch : GcodeSetResult
  seq_ttl_missing seq_ttl_mismatch src_missing src_mismatch : GcodeSetResult

-- `source` is a pointer; a null pointer is `none`.
pub record MetaData : Type 0 where
  pub seq_number : ℤ
  pub seq_total : ℤ
  pub source : Option Bytes

abbrev pub no_metadata : MetaData
no_metadata = record { seq_number = negsuc 0; seq_total = negsuc 0; source = none }

abbrev pub max_bucket_size : ℕ
max_bucket_size = 1024 * 50

abbrev pub max_buffer_size : ℕ
max_buffer_size = 1024 * (1024 * 3)

abbrev pub buffer_split_size : ℕ
buffer_split_size = 1024 * 8

pub record GcodeBuffer : Type 0 where
  pub buckets : List Bytes
  pub current_line : ℤ
  pub buffered_lines : ℤ
  pub total_lines_sent : ℤ
  pub explicit_total_lines : ℤ
  pub buffer_size : ℤ
  pub md : MetaData
  pub keep_gpx_macro_comments : Bool

-- the constructor
abbrev pub new : GcodeBuffer
new = record {
  buckets = [];
  current_line = pos 0;
  buffered_lines = pos 0;
  total_lines_sent = pos 0;
  explicit_total_lines = negsuc 0;
  buffer_size = pos 0;
  md = no_metadata;
  keep_gpx_macro_comments = false;
}

pub set_keep_gpx_macro_comments : GcodeBuffer → Bool → GcodeBuffer
set_keep_gpx_macro_comments b keep = record b { keep_gpx_macro_comments = keep }

unfoldable pub clear : GcodeBuffer → GcodeBuffer
clear b = record b {
  buckets = [];
  current_line = pos 0;
  buffered_lines = pos 0;
  total_lines_sent = pos 0;
  explicit_total_lines = negsuc 0;
  buffer_size = pos 0;
  md = no_metadata;
}

-- A bucket at the back with room left: the last one, or a new one behind it.
unfoldable pub open_back : List Bytes → List Bytes
open_back [] = [] ∷ []
open_back (b ∷ []) = if leb max_bucket_size (length b) then b ∷ [] ∷ [] else b ∷ []
open_back (b ∷ c ∷ bs) = b ∷ open_back (c ∷ bs)

unfoldable pub back : List Bytes → Bytes
back [] = []
back (b ∷ []) = b
back (b ∷ c ∷ bs) = back (c ∷ bs)

unfoldable pub set_back : List Bytes → Bytes → List Bytes
set_back [] s = []
set_back (b ∷ []) s = s ∷ []
set_back (b ∷ c ∷ bs) s = b ∷ set_back (c ∷ bs) s

-- `bufferSize_ -= (buflen - buffer->length())`, which an emptied buffer skips.
unfoldable pub cleanup_size : Bool → ℕ → Bytes → ℤ → ℤ
unfolding scan_comments tidy_newlines
cleanup_size keep at s size = elim (scan_comments keep at s) [
  | emptied ↦ size
  | kept t ↦ size -ℤ (pos (length s) -ℤ pos (length (tidy_newlines at t)))
]

-- The lines that stand from `at` on, an unended last one included.
unfoldable pub added_lines : Bytes → ℕ → ℕ
added_lines s at = count lf (drop at s) + (if ends_open (last? s) then 1 else 0)

unfoldable pub update_stats : GcodeBuffer → Bytes → ℕ → GcodeBuffer
unfolding added_lines
update_stats b s at =
    let added = pos (added_lines s at) in
    let total = b.total_lines_sent +ℤ added in
    record b {
      buffered_lines = b.buffered_lines +ℤ added;
      total_lines_sent = total;
      current_line = if ltb_ℤ total b.current_line then total else b.current_line;
    }

-- The chunk, cleaned behind what the bucket at the back holds, and the size that results.
unfoldable pub store_chunk : GcodeBuffer → Bytes → GcodeBuffer
unfolding open_back back set_back cleanup_size cleanup
store_chunk b gcode =
    let opened = open_back b.buckets in
    let at = length (back opened) in
    let s = back opened ++ gcode in
    let size = cleanup_size b.keep_gpx_macro_comments at s b.buffer_size in
    record b {
      buckets = set_back opened (cleanup b.keep_gpx_macro_comments at s);
      buffer_size = size +ℤ pos (length gcode);
    }

unfoldable pub append_chunk : GcodeBuffer → Bytes → GcodeBuffer
unfolding store_chunk update_stats
append_chunk b gcode =
    let a = back (open_back b.buckets) in
    let at = length a in
    update_stats (store_chunk b gcode) (cleanup b.keep_gpx_macro_comments at (a ++ gcode)) at

unfoldable pub set_current_line : GcodeBuffer → ℤ → GcodeBuffer
set_current_line b line = record b {
  current_line = if ltb_ℤ b.total_lines_sent line then b.total_lines_sent else line;
}

unfoldable pub get_total_lines : GcodeBuffer → ℤ
get_total_lines b = elim b.explicit_total_lines [ pos n ↦ pos n | negsuc _ ↦ b.total_lines_sent ]

unfoldable pub gsr_name : GcodeSetResult → Bytes
gsr_name ok = codes "ok"
gsr_name buffer_full = codes "buffer_full"
gsr_name seq_num_missing = codes "seq_num_missing"
gsr_name seq_num_mismatch = codes "seq_num_mismatch"
gsr_name seq_ttl_missing = codes "seq_ttl_missing"
gsr_name seq_ttl_mismatch = codes "seq_ttl_mismatch"
gsr_name src_missing = codes "seq_src_missing"
gsr_name src_mismatch = codes "seq_src_mismatch"
