-- ===== src/GcodeBuffer/Clean.antt =====
-- The reference: clean gcode in one pass, with no positions. `GCodeBuffer::cleanupGCode` is proved
-- to compute it in GcodeBuffer/Clean/Agree.
mod Passes
mod Search
mod Loops
pub mod Newlines
pub mod Agree
pub mod Shape
pub mod Whole
use print3d.Prelude.{
  ℕ, suc, ◌+◌, ◌≡◌, refl, ap, Bool, true, false, not, ◌&&◌, ◌||◌, List, [], ◌∷◌, ◌++◌, arith, ◌==◌,
  if◌then◌else◌, get_or,
}
use print3d.Prelude.Text.{Bytes, lf, codes, last?}
use print3d.GcodeBuffer.Cleanup.{cleanup}

-- `;` opens a comment, but for `;@` where macro comments are kept.
abbrev pub opens : Bool → ℕ → Bytes → Bool
opens keep c rest = c == b';' && not (keep && (get_or rest 0 0 == b'@'))

abbrev pub is_eol : ℕ → Bool
is_eol c = c == lf || c == b'\r'

-- `comment`: inside a comment; `fresh`: nothing of this line was written yet.
unfoldable pub clean_from : Bool → Bool → Bool → Bytes → Bytes
clean_from keep comment fresh [] = if fresh then [] else lf ∷ []
clean_from keep comment fresh (c ∷ cs) = elim (is_eol c) [
  | true ↦ elim fresh [
    | true ↦ clean_from keep false true cs
    | false ↦ lf ∷ clean_from keep false true cs
  ]
  | false ↦ elim (comment || opens keep c cs) [
    | true ↦ clean_from keep true fresh cs
    | false ↦ c ∷ clean_from keep false false cs
  ]
]

-- The lines of a text, each without its comment, the empty ones dropped, each ended by a newline.
unfoldable pub clean : Bool → Bytes → Bytes
unfolding clean_from
clean keep s = clean_from keep false true s
