-- ===== src/Driver/Serial.antt =====
-- src/drivers/Serial.cpp: the read buffer of the serial port.
use print3d.Prelude.{
  Bool, false, ℕ, ◌+◌, ◌≡◌, refl, ap, ◌∙◌, Option, none, some, [], ◌∷◌, ◌++◌, arith, ltb, ◌==◌,
  if◌then◌else◌, length, take, drop,
}
use print3d.Prelude.Text.{Bytes, lf, count, index_of, take-append}
use print3d.GcodeBuffer.Front.{drop-line}
use print3d.Ipc.Command.{c_text}

-- `none` is -1, for a buffer that is too short.
pub extract_byte : Bytes → Option (ℕ × Bytes)
extract_byte [] = none
extract_byte (b ∷ buf) = some (b, buf)

pub extract_bytes : ℕ → Bytes → Option (Bytes × Bytes)
extract_bytes n buf = if ltb (length buf) n then none else some (take n buf, drop n buf)

-- A carriage return at the end of the line becomes a zero byte. For an empty line the code reads
-- the byte before its copy; the line stays empty whatever it finds there.
unfoldable pub without_cr : Bytes → Bytes
without_cr [] = []
without_cr (c ∷ []) = if c == b'\r' then 0 ∷ [] else c ∷ []
without_cr (c ∷ d ∷ s) = c ∷ without_cr (d ∷ s)

-- The first line, without its end, and the buffer behind it.
unfoldable pub extract_line : Bytes → Option (Bytes × Bytes)
unfolding index_of without_cr c_text
extract_line buf = elim (index_of lf buf) [
  | none ↦ none
  | some p ↦ some (c_text (without_cr (take p buf)), drop (p + 1) buf)
]

index_of-line :
    (raw rest : Bytes) → count lf raw ≡ 0 → index_of lf (raw ++ (lf ∷ rest)) ≡ some (length raw)
unfolding index_of
index_of-line [] rest h = refl
index_of-line (c ∷ raw) rest h = ground (arith, index_of-line raw rest)

extract_line-found :
    (buf : Bytes) (p : ℕ)
    → index_of lf buf ≡ some p
    → extract_line buf ≡ some (c_text (without_cr (take p buf)), drop (p + 1) buf)
unfolding extract_line
extract_line-found buf p e = rw (e, extract_line) refl

-- The line before the first newline, as the code cuts it, and what is behind.
pub extract_line-line :
    (raw rest : Bytes)
    → count lf raw ≡ 0
    → extract_line (raw ++ (lf ∷ rest)) ≡ some (c_text (without_cr raw), rest)
extract_line-line raw rest h =
    extract_line-found (raw ++ (lf ∷ rest)) (length raw) (index_of-line raw rest h)
    ∙ ap (λ t. some (c_text (without_cr t), drop (length raw + 1) (raw ++ (lf ∷ rest))))
        (take-append raw (lf ∷ rest))
    ∙ ap (λ t. some (c_text (without_cr raw), t)) (drop-line raw rest)

abbrev pub ends_cr : Bytes → Bool
ends_cr [] = false
ends_cr (c ∷ []) = c == b'\r'
ends_cr (c ∷ d ∷ s) = ends_cr (d ∷ s)

-- What the printer may send for a line: the line, the line and a carriage return, or the line and a
-- zero byte with anything behind it.
pub data Sent (line : Bytes) : Bytes → Type 0 where
  bare : ends_cr line ≡ false → Sent line line
  returned : Sent line (line ++ (b'\r' ∷ []))
  cut_off : (junk : Bytes) → Sent line (line ++ (0 ∷ junk))

c_text-bare : (s : Bytes) → count 0 s ≡ 0 → ends_cr s ≡ false → c_text (without_cr s) ≡ s
unfolding c_text without_cr
c_text-bare [] z e = refl
c_text-bare (c ∷ []) z e = ground arith
c_text-bare (c ∷ d ∷ s) z e = ground (arith, c_text-bare (d ∷ s))

c_text-returned : (s : Bytes) → count 0 s ≡ 0 → c_text (without_cr (s ++ (b'\r' ∷ []))) ≡ s
unfolding c_text without_cr
c_text-returned [] z = refl
c_text-returned (c ∷ []) z = ground arith
c_text-returned (c ∷ d ∷ s) z = ground (arith, c_text-returned (d ∷ s))

c_text-cut_off : (s junk : Bytes) → count 0 s ≡ 0 → c_text (without_cr (s ++ (0 ∷ junk))) ≡ s
unfolding c_text without_cr
c_text-cut_off [] [] z = refl
c_text-cut_off [] (x ∷ junk) z = refl
c_text-cut_off (c ∷ []) [] z = ground arith
c_text-cut_off (c ∷ []) (x ∷ junk) z = ground arith
c_text-cut_off (c ∷ d ∷ s) junk z = ground (arith, c_text-cut_off (d ∷ s) junk)

c_text-Sent : (line raw : Bytes) → Sent line raw → count 0 line ≡ 0 → c_text (without_cr raw) ≡ line
c_text-Sent line raw (bare e) z = c_text-bare line z e
c_text-Sent line raw returned z = c_text-returned line z
c_text-Sent line raw (cut_off junk) z = c_text-cut_off line junk z

-- A line that is received with a newline is handed out, and what follows the newline stays in the
-- buffer: the line comes as it is, without a carriage return at its end, or with one, which is taken
-- off, or with a zero byte, which cuts off what follows it. What is received before the newline has
-- no newline, and the line no zero byte.
pub extract_line-Sent :
    (line raw rest : Bytes)
    → Sent line raw
    → count 0 line ≡ 0
    → count lf raw ≡ 0
    → extract_line (raw ++ (lf ∷ rest)) ≡ some (line, rest)
extract_line-Sent line raw rest sent z h =
    extract_line-line raw rest h ∙ ap (λ t. some (t, rest)) (c_text-Sent line raw sent z)
