-- ===== src/GcodeBuffer/Sequence.antt =====
-- The consistency checks of append: which chunks are accepted, and what a refusal leaves.
use print3d.Prelude.{
  ℕ, zero, suc, subst, ◌≡◌, ◌≢◌, refl, ap, sym, ◌∙◌, ◌⊎◌, ◌↔◌, true, false, Option, none, some,
  arith, ltb, if◌then◌else◌, length, inl, inr, Bool-cases,
}
use print3d.Prelude.Int.{ℤ, pos, ◌+ℤ◌, is_nonneg}
use print3d.Prelude.Text.{Bytes, bytes_eq, eq_of_bytes_eq}
use print3d.GcodeBuffer.State.{
  GcodeBuffer, MetaData, GcodeSetResult, ok, append_chunk, src_missing, src_mismatch,
}
use print3d.GcodeBuffer.Append.{
  is_ok, keep_source, check_number, check_total, check_source, sanity, append_checked, and_then,
  housekeeping, append_loop, append,
}

-- The buffer has been given a sequence number, a total or a source.
abbrev pub Expects : MetaData → Type 0
Expects own =
    (is_nonneg own.seq_number ≡ true) ⊎ ((is_nonneg own.seq_total ≡ true) ⊎ (own.source ≢ none))

-- What the checks have established of the metadata of an accepted chunk.
pub record Follows (own : MetaData) (m : MetaData) : Type 0 where
  pub next_number : is_nonneg own.seq_number ≡ true → m.seq_number ≡ own.seq_number +ℤ pos 1
  pub same_total : is_nonneg own.seq_total ≡ true → m.seq_total ≡ own.seq_total
  pub same_source : own.source ≢ none → m.source ≡ own.source
  pub first_number :
      is_nonneg own.seq_number ≡ false → is_nonneg m.seq_number ≡ true → m.seq_number ≡ pos 0

check_number-ok :
    (own : MetaData) (size : ℤ) (m : MetaData)
    → check_number own size (some m) ≡ ok
    → (is_nonneg own.seq_number ≡ true → m.seq_number ≡ own.seq_number +ℤ pos 1)
      × (is_nonneg own.seq_number ≡ false → is_nonneg m.seq_number ≡ true → m.seq_number ≡ pos 0)
unfolding check_number ◌+ℤ◌
check_number-ok own size m h = ground arith

check_total-ok :
    (own : MetaData) (m : MetaData)
    → check_total own (some m) ≡ ok
    → is_nonneg own.seq_total ≡ true
    → m.seq_total ≡ own.seq_total
unfolding check_total
check_total-ok own m h n = ground arith

check_source-ok :
    (own : Option Bytes) (m : MetaData)
    → check_source own (some m) ≡ ok
    → own ≢ none
    → m.source ≡ own
unfolding check_source
check_source-ok none m h n = absurd (n refl)
check_source-ok (some s) m h n = go m.source h
  where
    go :
        (t : Option Bytes)
        → (elim t [ none ↦ src_missing | some u ↦ if bytes_eq s u then ok else src_mismatch ]) ≡ ok
        → t ≡ some s
    go none e = cc
    go (some u) e = ground (arith, eq_of_bytes_eq s u)

and_then-ok : (a b : GcodeSetResult) → and_then a b ≡ ok → (a ≡ ok) × (b ≡ ok)
and_then-ok ok b h = (refl, h)
and_then-ok _ b h = absurd (ground arith)

append_checked-ok :
    (checked : GcodeSetResult) (b : GcodeBuffer) (gcode : Bytes) (total_lines : ℤ)
    (m : Option MetaData) (b' : GcodeBuffer)
    → append_checked checked b gcode total_lines m ≡ some (b', ok)
    → (checked ≡ ok) × (b' ≡ append_loop (length gcode) (housekeeping b total_lines m) gcode 0)
unfolding append_checked
append_checked-ok ok b gcode total_lines m b' h = ground arith
append_checked-ok _ b gcode total_lines m b' h = absurd (ground arith)

append_checked-rejected :
    (checked : GcodeSetResult) (b : GcodeBuffer) (gcode : Bytes) (total_lines : ℤ)
    (m : Option MetaData) (b' : GcodeBuffer) (r : GcodeSetResult)
    → append_checked checked b gcode total_lines m ≡ some (b', r)
    → r ≢ ok
    → b' ≡ b
unfolding append_checked
append_checked-rejected checked b gcode total_lines m b' r h ne = ground arith

-- A rejected append, for whatever reason, leaves the buffer as it was.
pub append_rejected :
    (b : GcodeBuffer) (gcode : Bytes) (total_lines : ℤ) (m : Option MetaData) (b' : GcodeBuffer)
    (r : GcodeSetResult)
    → append b gcode total_lines m ≡ some (b', r)
    → r ≢ ok
    → b' ≡ b
unfolding append
append_rejected b gcode total_lines m b' r h ne =
    append_checked-rejected (sanity b m) b gcode total_lines m b' r h ne

sanity-Follows : (b : GcodeBuffer) (m : MetaData) → sanity b (some m) ≡ ok → Follows b.md m
unfolding sanity
sanity-Follows b m h =
    let (first, source) = and_then-ok _ (check_source b.md.source (some m)) h in
    let (number, total) =
      and_then-ok (check_number b.md b.buffer_size (some m)) (check_total b.md (some m)) first in
    record {
      next_number = (check_number-ok b.md b.buffer_size m number).0;
      same_total = check_total-ok b.md m total;
      same_source = check_source-ok b.md.source m source;
      first_number = (check_number-ok b.md b.buffer_size m number).1;
    }

-- The metadata of an accepted chunk follows what the buffer has been given before.
pub append-Follows :
    (b : GcodeBuffer) (gcode : Bytes) (total_lines : ℤ) (m : MetaData) (b' : GcodeBuffer)
    → append b gcode total_lines (some m) ≡ some (b', ok)
    → Follows b.md m
unfolding append
append-Follows b gcode total_lines m b' h =
    sanity-Follows b m (append_checked-ok (sanity b (some m)) b gcode total_lines (some m) b' h).0

md-append_loop :
    (fuel : ℕ) (b : GcodeBuffer) (gcode : Bytes) (start : ℕ)
    → (append_loop fuel b gcode start).md ≡ b.md
unfolding append_loop
md-append_loop zero b gcode start = refl
md-append_loop (suc fuel) b gcode start = elim (Bool-cases (ltb start (length gcode))) [
  | inl e ↦ rw e (md-append_loop fuel _ gcode _ ∙ (unfold append_chunk in refl))
  | inr e ↦ rw e
]

keep_source-Follows :
    (own : Option Bytes) (m : MetaData)
    → (own ≢ none → m.source ≡ own)
    → keep_source own m.source ≡ m.source
keep_source-Follows none m h = refl
keep_source-Follows (some s) m h = sym (h (λ e. cc))

-- An accepted chunk's metadata is what the buffer expects the next to follow.
md-append :
    (b : GcodeBuffer) (gcode : Bytes) (total_lines : ℤ) (m : MetaData) (b' : GcodeBuffer)
    → append b gcode total_lines (some m) ≡ some (b', ok)
    → b'.md ≡ m
unfolding append housekeeping
md-append b gcode total_lines m b' h =
    let e = append_checked-ok (sanity b (some m)) b gcode total_lines (some m) b' h in
    let source =
      keep_source-Follows b.md.source m (append-Follows b gcode total_lines m b' h).same_source in
    ap (λ (x : GcodeBuffer). x.md) e.1
    ∙ md-append_loop (length gcode) (housekeeping b total_lines (some m)) gcode 0
    ∙ (λ i. record { seq_number = m.seq_number; seq_total = m.seq_total; source = source i })

-- Two chunks that are accepted one after the other have consecutive sequence numbers, the same
-- total and the same source, once the first of them has them.
pub append-append-Follows :
    (b b' b'' : GcodeBuffer) (gcode gcode' : Bytes) (total_lines total_lines' : ℤ) (m m' : MetaData)
    → append b gcode total_lines (some m) ≡ some (b', ok)
    → append b' gcode' total_lines' (some m') ≡ some (b'', ok)
    → Follows m m'
append-append-Follows b b' b'' gcode gcode' total_lines total_lines' m m' h h' =
    subst (λ d. Follows d m') (md-append b gcode total_lines m b' h)
      (append-Follows b' gcode' total_lines' m' b'' h')

append_checked-null :
    (checked : GcodeSetResult) (b : GcodeBuffer) (gcode : Bytes) (total_lines : ℤ)
    → (append_checked checked b gcode total_lines none ≡ none) ↔ (is_ok checked ≡ false)
unfolding append_checked
append_checked-null checked b gcode total_lines = ground arith

sanity-null : (b : GcodeBuffer) → (is_ok (sanity b none) ≡ false) ↔ Expects b.md
unfolding sanity
sanity-null b = go b.md.source
  where
    go :
        (source : Option Bytes)
        → (is_ok (
              and_then
                (and_then (check_number b.md b.buffer_size none) (check_total b.md none))
                (check_source source none))
            ≡ false)
          ↔ ((is_nonneg b.md.seq_number ≡ true)
              ⊎ ((is_nonneg b.md.seq_total ≡ true) ⊎ (source ≢ none)))
    go none = ground arith
    go (some s) = ground arith

-- With no metadata, append reads a null pointer exactly when the buffer expects a number, a
-- total or a source.
pub append_null_iff :
    (b : GcodeBuffer) (gcode : Bytes) (total_lines : ℤ)
    → (append b gcode total_lines none ≡ none) ↔ Expects b.md
unfolding append
append_null_iff b gcode total_lines =
    let checked = append_checked-null (sanity b none) b gcode total_lines in
    let expects = sanity-null b in (λ h. expects.0 (checked.0 h), λ h. checked.1 (expects.1 h))
