-- ===== src/GcodeBuffer/Cleanup.antt =====
-- src/drivers/GCodeBuffer.cpp, cleanupGCode: the passes over one bucket from `pos` on. The
-- statistics that it keeps are in GcodeBuffer/State.
use print3d.Prelude.{
  ℕ, zero, suc, ◌+◌, ◌-◌, ◌*◌, Bool, true, false, ◌&&◌, Option, none, some, [], ◌∷◌, ◌++◌, map, ltb,
  ◌==◌, if◌then◌else◌, length, take, drop, get_or,
}
use print3d.Prelude.Text.{Bytes, lf, find, find_text, last?}

-- What the comment loop leaves: the buffer, or an empty buffer that ends the whole function.
pub data Scan : Type 0 where
  kept : Bytes → Scan
  emptied : Scan

-- `std::replace(begin + pos, end, '\r', '\n')`
abbrev pub to_lf : ℕ → ℕ
to_lf c = if c == b'\r' then lf else c

unfoldable pub replace_cr : ℕ → Bytes → Bytes
replace_cr pos s = take pos s ++ map to_lf (drop pos s)

-- The macro comment test: `;` at `p` with `@` behind it.
abbrev pub is_macro : Bool → Bytes → ℕ → Bool
is_macro keep s p = keep && ltb p (length s - 1) && (get_or s (p + 1) 0 == b'@')

-- The comment that begins at `p`, erased up to its newline, or to the end.
unfoldable pub erase_comment : Bytes → ℕ → Bytes
unfolding find
erase_comment s p = elim (find s lf p) [
  | none ↦ take p s
  | some e ↦ take p s ++ drop (p + (e - p)) s
]

-- The comment loop, its search position last. After an erasure it starts at `pos` again.
unfoldable pub comment_loop : ℕ → Bool → ℕ → Bytes → ℕ → Scan
unfolding find erase_comment
comment_loop zero keep pos s p = kept s
comment_loop (suc fuel) keep pos s p = elim (find s b';' p) [
  | none ↦ kept s
  | some q ↦
      let skip = comment_loop fuel keep pos s (q + 1) in
      let s' = erase_comment s q in
      let again = comment_loop fuel keep pos s' pos in
      if is_macro keep s q then skip else if length s' == 0 then emptied else again
]

-- Rounds enough for every loop over `s`: each erasure shortens it, each skip moves on.
abbrev pub comment_fuel : Bytes → ℕ
comment_fuel s = (length s + 1) * (length s + 1)

abbrev pub double_lf : Bytes
double_lf = lf ∷ lf ∷ []

-- Two newlines become one, and the search goes on at the same place.
unfoldable pub double_newline_loop : ℕ → Bytes → ℕ → Bytes
unfolding find_text
double_newline_loop zero s p = s
double_newline_loop (suc fuel) s p = elim (find_text s double_lf p) [
  | none ↦ s
  | some q ↦ double_newline_loop fuel (take q s ++ (lf ∷ drop (q + 2) s)) q
]

unfoldable pub erase_first_empty : Bytes → Bytes
erase_first_empty [] = []
erase_first_empty (c ∷ s) = if c == lf then s else c ∷ s

abbrev pub ends_open : Option ℕ → Bool
ends_open none = false
ends_open (some c) = if c == lf then false else true

unfoldable pub end_line : Bytes → Bytes
end_line s = if ends_open (last? s) then s ++ (lf ∷ []) else s

-- What follows the comment loop: `\n\n` from one byte before `pos`, then both ends of the buffer.
unfoldable pub tidy_newlines : ℕ → Bytes → Bytes
unfolding double_newline_loop erase_first_empty end_line
tidy_newlines pos s = end_line (erase_first_empty (double_newline_loop (length s + 1) s (pos - 1)))

unfoldable pub scan_comments : Bool → ℕ → Bytes → Scan
unfolding replace_cr comment_loop
scan_comments keep pos s =
    let s' = replace_cr pos s in comment_loop (comment_fuel s') keep pos s' pos

-- An emptied buffer returns at once.
unfoldable pub after_comments : ℕ → Scan → Bytes
unfolding tidy_newlines
after_comments pos emptied = []
after_comments pos (kept t) = tidy_newlines pos t

-- The contents that `cleanupGCode` leaves in the bucket.
unfoldable pub cleanup : Bool → ℕ → Bytes → Bytes
unfolding scan_comments after_comments
cleanup keep pos s = after_comments pos (scan_comments keep pos s)
