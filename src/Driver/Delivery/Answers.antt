-- ===== src/Driver/Delivery/Answers.antt =====
-- The answers of a printer that drive a print, or leave the driver as it is.
use print3d.Prelude.{
  ℕ, zero, suc, ◌≡◌, refl, ◌∙◌, true, false, some, List, [], ◌∷◌, arith, inl, inr, Bool-cases,
}
use print3d.Prelude.Int.{ℤ}
use print3d.Prelude.Text.{Bytes, codes, find_text, starts_with}
use print3d.GcodeBuffer.Lines.{erase_line, is_some}
use print3d.Driver.State.{Driver, is_printing}
use print3d.Driver.Print.{print_next_line}
use print3d.Driver.Response.{at_start, read_response_code, read_lines}

-- A confirmation begins with "ok", and not with the temperature behind it.
abbrev pub IsConfirmation : Bytes → Type 0
IsConfirmation a = (starts_with (codes "ok") a ≡ true) × (starts_with (codes "ok T:") a ≡ false)

-- A notice is neither a confirmation nor a temperature, and does not ask for a line again.
abbrev pub IsNotice : Bytes → Type 0
IsNotice a =
    (starts_with (codes "ok") a ≡ false)
    × (starts_with (codes "T:") a ≡ false)
    × (is_some (find_text a (codes "Resend:") 0) ≡ false)

-- Answers of the printer with so many confirmations, and notices at any place.
pub data Answers : ℕ → List Bytes → Type 0 where
  done : Answers zero []
  notice :
      {n : ℕ} {rest : List Bytes} (a : Bytes) → IsNotice a → Answers n rest → Answers n (a ∷ rest)
  confirm :
      {n : ℕ} {rest : List Bytes} (a : Bytes)
      → IsConfirmation a
      → Answers n rest
      → Answers (suc n) (a ∷ rest)

at_start-starts_with :
    (s : Bytes) (c : ℕ) (p : Bytes) → at_start (find_text s (c ∷ p) 0) ≡ starts_with (c ∷ p) s
unfolding find_text at_start starts_with
at_start-starts_with [] c p = refl
at_start-starts_with (x ∷ s) c p = ground arith

not_both : (a : Bytes) → IsConfirmation a → starts_with (codes "T:") a ≡ false
unfolding starts_with
not_both [] h = refl
not_both (c ∷ a) h = ground (arith, h.0)

no_temperature :
    (a : Bytes) → starts_with (codes "ok") a ≡ false → starts_with (codes "ok T:") a ≡ false
unfolding starts_with
no_temperature [] h = refl
no_temperature (c ∷ []) h = ground arith
no_temperature (c ∷ b ∷ a) h = ground arith

module _ (number : Bytes → ℤ) where
  -- A confirmation takes the line that was sent out of the buffer, and sends the next.
  pub read_response_code-confirm :
      (d : Driver) (a : Bytes)
      → IsConfirmation a
      → is_printing d.state ≡ true
      → read_response_code number d a
        ≡ print_next_line number (record d { gcode_buffer = (erase_line d.gcode_buffer 1).0 })
  unfolding read_response_code
  read_response_code-confirm d a h busy =
      rw
        (
          at_start-starts_with a b'o' (codes "k T:"),
          at_start-starts_with a b'T' (codes ":"),
          at_start-starts_with a b'o' (codes "k"),
          h.1,
          not_both a h,
          h.0,
          busy,
        )
        refl

  pub read_response_code-notice :
      (d : Driver) (a : Bytes) → IsNotice a → read_response_code number d a ≡ some d
  unfolding read_response_code
  read_response_code-notice d a h =
      rw
        (
          at_start-starts_with a b'o' (codes "k T:"),
          at_start-starts_with a b'T' (codes ":"),
          at_start-starts_with a b'o' (codes "k"),
          no_temperature a h.0,
          h.1,
          h.0,
          h.2,
        )
        (elim (Bool-cases (is_some (find_text a (codes "start") 0))) [
          | inl e ↦ rw e refl
          | inr e ↦ rw e refl
        ])

  pub read_lines-next :
      (d e : Driver) (a : Bytes) (rest : List Bytes)
      → read_response_code number d a ≡ some e
      → read_lines number d (a ∷ rest) ≡ read_lines number e rest
  unfolding read_lines
  read_lines-next d e a rest h = rw (h, read_lines) refl

  -- Once everything is confirmed, notices change nothing.
  pub read_lines-quiet :
      {n : ℕ} {rest : List Bytes} (d : Driver)
      → n ≡ 0
      → Answers n rest
      → read_lines number d rest ≡ some d
  unfolding read_lines
  read_lines-quiet d z done = refl
  read_lines-quiet d z (notice {rest = r} a h more) =
      read_lines-next d d a r (read_response_code-notice d a h) ∙ read_lines-quiet d z more
  read_lines-quiet d z (confirm a h more) = absurd (omega arith)
