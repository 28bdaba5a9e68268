-- ===== src/GcodeBuffer/Append.antt =====
-- src/drivers/GCodeBuffer.cpp, append and set: the consistency checks and the loop over chunks.
use print3d.Prelude.{
  ℕ, zero, suc, ◌+◌, ◌-◌, ◌%◌, ◌^◌, Bool, true, false, not, Option, none, some, ltb, if◌then◌else◌,
  length, drop, take,
}
use print3d.Prelude.Int.{ℤ, pos, negsuc, ◌+ℤ◌, ltb_ℤ, eq_ℤ, is_nonneg}
use print3d.Prelude.Text.{Bytes, lf, find, bytes_eq}
use print3d.GcodeBuffer.State.{
  GcodeBuffer, MetaData, GcodeSetResult, ok, buffer_full, seq_num_missing, seq_num_mismatch,
  seq_ttl_missing, seq_ttl_mismatch, src_missing, src_mismatch, max_buffer_size, buffer_split_size,
  clear, append_chunk,
}

abbrev pub is_ok : GcodeSetResult → Bool
is_ok ok = true
is_ok _ = false

unfoldable pub check_number : MetaData → ℤ → Option MetaData → GcodeSetResult
check_number own size none = if is_nonneg own.seq_number then seq_num_missing else ok
check_number own size (some m) =
    if is_nonneg own.seq_number
    then if not (is_nonneg m.seq_number)
      then seq_num_missing
      else if not (eq_ℤ (own.seq_number +ℤ pos 1) m.seq_number)
      then seq_num_mismatch
      else ok
    else if is_nonneg m.seq_number
    then if ltb_ℤ (pos 0) m.seq_number
      then seq_num_mismatch
      else if ltb_ℤ (pos 0) size
      then seq_num_mismatch
      else ok
    else ok

unfoldable pub check_total : MetaData → Option MetaData → GcodeSetResult
check_total own none = if is_nonneg own.seq_total then seq_ttl_missing else ok
check_total own (some m) =
    if is_nonneg own.seq_total
    then if not (is_nonneg m.seq_total)
      then seq_ttl_missing
      else if not (eq_ℤ own.seq_total m.seq_total)
      then seq_ttl_mismatch
      else if ltb_ℤ m.seq_total (m.seq_number +ℤ pos 1)
      then seq_num_mismatch
      else ok
    else ok

unfoldable pub check_source : Option Bytes → Option MetaData → GcodeSetResult
check_source none m = ok
check_source (some own) none = src_missing
check_source (some own) (some m) = elim m.source [
  | none ↦ src_missing
  | some s ↦ if bytes_eq own s then ok else src_mismatch
]

abbrev pub and_then : GcodeSetResult → GcodeSetResult → GcodeSetResult
and_then sanity next = if is_ok sanity then next else sanity

-- the sanity checks, each made only if those before it passed
unfoldable pub sanity : GcodeBuffer → Option MetaData → GcodeSetResult
unfolding check_number check_total check_source
sanity b m =
    and_then (and_then (check_number b.md b.buffer_size m) (check_total b.md m))
      (check_source b.md.source m)

-- `getBufferSize() + gcode.length() > MAX_BUFFER_SIZE`, as size_t: a negative size wraps.
unfoldable pub exceeds_max : ℤ → ℕ → Bool
exceeds_max (pos n) len = ltb max_buffer_size (n + len)
exceeds_max (negsuc n) len = ltb max_buffer_size ((2 ^ 64 - (n + 1) + len) % 2 ^ 64)

-- `if (!md_.source && metaData->source)`
abbrev pub keep_source : Option Bytes → Option Bytes → Option Bytes
keep_source none s = s
keep_source (some own) s = some own

unfoldable pub housekeeping : GcodeBuffer → ℤ → Option MetaData → GcodeBuffer
housekeeping b total_lines m =
    let explicit = if is_nonneg total_lines then total_lines else b.explicit_total_lines in
    record b {
      explicit_total_lines = explicit;
      md = elim m [
        | none ↦ b.md
        | some d ↦ record {
          seq_number = d.seq_number;
          seq_total = d.seq_total;
          source = keep_source b.md.source d.source;
        }
      ];
    }

-- The length of the chunk that begins at `start`: past the first newline behind the split size.
unfoldable pub chunk_length : Bytes → ℕ → ℕ
unfolding find
chunk_length gcode start = elim (find gcode lf (start + buffer_split_size)) [
  | none ↦ length gcode - start
  | some nl ↦ nl - start + 1
]

unfoldable pub append_loop : ℕ → GcodeBuffer → Bytes → ℕ → GcodeBuffer
unfolding chunk_length append_chunk
append_loop zero b gcode start = b
append_loop (suc fuel) b gcode start =
    let len = chunk_length gcode start in
    let rest =
      append_loop fuel (append_chunk b (take len (drop start gcode))) gcode (start + len) in
    if ltb start (length gcode) then rest else b

-- The rest of append, behind the checks. `none`: the error message of a failed check reads
-- `metaData->seqNumber` of a null pointer.
unfoldable pub append_checked :
    GcodeSetResult
    → GcodeBuffer
    → Bytes
    → ℤ
    → Option MetaData
    → Option (GcodeBuffer × GcodeSetResult)
append_checked checked b gcode total_lines m =
    if not (is_ok checked)
    then elim m [ none ↦ none | some _ ↦ some (b, checked) ]
    else if exceeds_max b.buffer_size (length gcode)
    then some (b, buffer_full)
    else some (append_loop (length gcode) (housekeeping b total_lines m) gcode 0, ok)

unfoldable pub append :
    GcodeBuffer → Bytes → ℤ → Option MetaData → Option (GcodeBuffer × GcodeSetResult)
unfolding sanity append_checked exceeds_max housekeeping append_loop
append b gcode total_lines m = append_checked (sanity b m) b gcode total_lines m

unfoldable pub set :
    GcodeBuffer → Bytes → ℤ → Option MetaData → Option (GcodeBuffer × GcodeSetResult)
unfolding append
set b gcode total_lines m = append (clear b) gcode total_lines m
