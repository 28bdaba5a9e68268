-- ===== src/Driver/Framing.antt =====
-- What the printer sends arrives in pieces: the lines that are taken out of them.
use print3d.Prelude.{
  ℕ, zero, suc, ◌≤◌, ◌≡◌, refl, ap, sym, ◌∙◌, Option, none, some, List, [], ◌∷◌, ◌++◌, map, arith,
  ◌==◌, if◌then◌else◌, length, append_assoc, append-nil, inl, inr, false, Bool-cases, Option-cases,
  length-append,
}
use native.Mathlib.Nat.{le_refl}
use mathlib.Core.List.{map-append}
use print3d.Prelude.Int.{ℤ}
use print3d.Prelude.Text.{Bytes, lf, count, index_of, index_of-none, index_of-some}
use print3d.Ipc.Command.{c_text}
use print3d.GcodeBuffer.Contents.{joined}
use print3d.Driver.State.{Driver}
use print3d.Driver.Response.{read_response_code, read_lines}
use print3d.Driver.Serial.{extract_line, extract_line-line, without_cr}
use print3d.Driver.Update.{take_lines}
use print3d.Driver.Delivery.Answers.{read_lines-next}

-- A byte in front of the first line, or of the rest if there is no line.
abbrev pub in_front : ℕ → List Bytes × Bytes → List Bytes × Bytes
in_front c ([], rest) = ([], c ∷ rest)
in_front c (l ∷ ls, rest) = ((c ∷ l) ∷ ls, rest)

-- The lines that are ended, and what stands behind the last newline.
unfoldable pub cut : Bytes → List Bytes × Bytes
cut [] = ([], [])
cut (c ∷ s) = let (ls, rest) = cut s in if c == lf then ([] ∷ ls, rest) else in_front c (ls, rest)

-- A line as it is handed on: up to a zero byte, without a carriage return at its end.
abbrev pub received_line : Bytes → Bytes
received_line raw = c_text (without_cr raw)

abbrev pub with_rest : Bytes → Option Driver → Option (Driver × Bytes)
with_rest rest none = none
with_rest rest (some d) = some (d, rest)

cut-free : (s : Bytes) → count lf s ≡ 0 → cut s ≡ ([], s)
unfolding cut
cut-free [] h = refl
cut-free (c ∷ s) h = ground (arith, cut-free s)

cut-line : (l s : Bytes) → count lf l ≡ 0 → cut (l ++ (lf ∷ s)) ≡ (l ∷ (cut s).0, (cut s).1)
unfolding cut
cut-line [] s h = refl
cut-line (c ∷ l) s h = ground (arith, cut-line l s)

cut-cons : (c : ℕ) (s : Bytes) → (c == lf) ≡ false → cut (c ∷ s) ≡ in_front c (cut s)
unfolding cut
cut-cons c s ne = rw ne refl

in_front-append :
    (c : ℕ) (p q : List Bytes × Bytes) (t : Bytes)
    → (c == lf) ≡ false
    → q ≡ (p.0 ++ (cut (p.1 ++ t)).0, (cut (p.1 ++ t)).1)
    → in_front c q
      ≡ ((in_front c p).0 ++ (cut ((in_front c p).1 ++ t)).0, (cut ((in_front c p).1 ++ t)).1)
in_front-append c ([], r) q t ne e = ap (in_front c) e ∙ sym (cut-cons c (r ++ t) ne)
in_front-append c (l ∷ ls, r) q t ne e = ap (in_front c) e

-- What is behind the lines of the first part is cut together with the second.
cut-append :
    (s t : Bytes) → cut (s ++ t) ≡ ((cut s).0 ++ (cut ((cut s).1 ++ t)).0, (cut ((cut s).1 ++ t)).1)
unfolding cut
cut-append [] t = refl
cut-append (c ∷ s) t = elim (Bool-cases (c == lf)) [
  | inl e ↦ rw e (ap (λ (p : List Bytes × Bytes). ([] ∷ p.0, p.1)) (cut-append s t))
  | inr ne ↦ rw ne (in_front-append c (cut s) (cut (s ++ t)) t ne (cut-append s t))
]

in_front-rest :
    (c : ℕ) (p : List Bytes × Bytes)
    → (c == lf) ≡ false
    → count lf p.1 ≡ 0
    → count lf (in_front c p).1 ≡ 0
in_front-rest c ([], rest) ne h = ground arith
in_front-rest c (l ∷ ls, rest) ne h = h

cut-rest : (s : Bytes) → count lf (cut s).1 ≡ 0
unfolding cut
cut-rest [] = refl
cut-rest (c ∷ s) = elim (Bool-cases (c == lf)) [
  | inl e ↦ rw e (cut-rest s)
  | inr ne ↦ rw ne (in_front-rest c (cut s) ne (cut-rest s))
]

none_driver : (d : Driver) → ◌≡◌ {A = Option Driver} none (some d) → ⊥
none_driver d h = cc

same_driver : (d e : Driver) → ◌≡◌ {A = Option Driver} (some d) (some e) → d ≡ e
same_driver d e h = cc

index_of-absent : (c : ℕ) (s : Bytes) → count c s ≡ 0 → index_of c s ≡ none
unfolding index_of
index_of-absent c [] h = refl
index_of-absent c (x ∷ s) h = ground (arith, index_of-absent c s)

extract_line-none : (buf : Bytes) → index_of lf buf ≡ none → extract_line buf ≡ none
unfolding extract_line
extract_line-none buf e = rw (e, extract_line) refl

module _ (number : Bytes → ℤ) where
  take_lines-stop :
      (fuel : ℕ) (d : Driver) (buf : Bytes)
      → extract_line buf ≡ none
      → take_lines number fuel d buf ≡ some (d, buf)
  unfolding take_lines
  take_lines-stop zero d buf e = refl
  take_lines-stop (suc fuel) d buf e = rw (e, take_lines) refl

  take_lines-next :
      (fuel : ℕ) (d e : Driver) (buf line rest : Bytes)
      → extract_line buf ≡ some (line, rest)
      → read_response_code number d line ≡ some e
      → take_lines number (suc fuel) d buf ≡ take_lines number fuel e rest
  unfolding take_lines
  take_lines-next fuel d e buf line rest h k = rw (h, take_lines) (rw (k, take_lines) refl)

  take_lines-crash :
      (fuel : ℕ) (d : Driver) (buf line rest : Bytes)
      → extract_line buf ≡ some (line, rest)
      → read_response_code number d line ≡ none
      → take_lines number (suc fuel) d buf ≡ none
  unfolding take_lines
  take_lines-crash fuel d buf line rest h k = rw (h, take_lines) (rw (k, take_lines) refl)

  read_lines-crash :
      (d : Driver) (line : Bytes) (lines : List Bytes)
      → read_response_code number d line ≡ none
      → read_lines number d (line ∷ lines) ≡ none
  unfolding read_lines
  read_lines-crash d line lines h = rw (h, read_lines) refl

  -- What the driver makes of a buffer: its lines are read, and the rest is kept.
  abbrev pub reads : Driver → List Bytes × Bytes → Option (Driver × Bytes)
  reads d (ls, rest) = with_rest rest (read_lines number d (map received_line ls))

  read_lines-nil : (d : Driver) → read_lines number d [] ≡ some d
  unfolding read_lines
  read_lines-nil d = refl

  take_lines-free :
      (fuel : ℕ) (d : Driver) (buf : Bytes)
      → count lf buf ≡ 0
      → take_lines number fuel d buf ≡ reads d (cut buf)
  take_lines-free fuel d buf h =
      take_lines-stop fuel d buf (extract_line-none buf (index_of-absent lf buf h))
      ∙ sym (ap (reads d) (cut-free buf h) ∙ ap (with_rest buf) (read_lines-nil d))

  -- With a round for each byte every line is read, and what is left has no newline.
  pub take_lines-cut :
      (fuel : ℕ) (d : Driver) (buf : Bytes)
      → length buf ≤ fuel
      → take_lines number fuel d buf ≡ reads d (cut buf)
  take_lines-cut zero d [] h = take_lines-free zero d [] refl
  take_lines-cut zero d (c ∷ buf) h = absurd (omega arith)
  take_lines-cut (suc fuel) d buf h = elim (Option-cases (index_of lf buf)) [
    | inl n ↦ take_lines-free (suc fuel) d buf (index_of-none lf buf n)
    | inr (i, e) ↦
        let o = index_of-some lf buf i e in
        let line = received_line o.before in
        let found = ap extract_line o.splits ∙ extract_line-line o.before o.behind o.absent in
        let parts = ap cut o.splits ∙ cut-line o.before o.behind o.absent in
        let shorter : length o.behind ≤ fuel =
          omega (arith, ap length o.splits, length-append o.before (lf ∷ o.behind)) in
        elim (Option-cases (read_response_code number d line)) [
          | inl n ↦
              take_lines-crash fuel d buf line o.behind found n
              ∙ sym (
                  ap (reads d) parts
                  ∙ ap (with_rest (cut o.behind).1)
                      (read_lines-crash d line (map received_line (cut o.behind).0) n))
          | inr (x, r) ↦
              take_lines-next fuel d x buf line o.behind found r
              ∙ take_lines-cut fuel x o.behind shorter
              ∙ sym (
                  ap (reads d) parts
                  ∙ ap (with_rest (cut o.behind).1)
                      (read_lines-next number d x line (map received_line (cut o.behind).0) r))
        ]
  ]

  -- What update makes of the pieces that its reads give it, one after the other.
  pub take_pieces : Driver → Bytes → List Bytes → Option (Driver × Bytes)
  take_pieces d buf [] = some (d, buf)
  take_pieces d buf (p ∷ ps) = elim (take_lines number (length (buf ++ p)) d (buf ++ p)) [
    | none ↦ none
    | some (e, rest) ↦ take_pieces e rest ps
  ]

  abbrev then_pieces : List Bytes → Option (Driver × Bytes) → Option (Driver × Bytes)
  then_pieces ps none = none
  then_pieces ps (some (e, rest)) = take_pieces e rest ps

  take_pieces-cons :
      (d : Driver) (buf p : Bytes) (ps : List Bytes)
      → take_pieces d buf (p ∷ ps)
        ≡ then_pieces ps (take_lines number (length (buf ++ p)) d (buf ++ p))
  unfolding take_pieces
  take_pieces-cons d buf p ps =
      elim (Option-cases (take_lines number (length (buf ++ p)) d (buf ++ p))) [
        | inl n ↦ rw (n, take_pieces) refl
        | inr (x, e) ↦ rw (e, take_pieces) refl
      ]

  read_lines-append_none :
      (d : Driver) (front back : List Bytes)
      → read_lines number d front ≡ none
      → read_lines number d (front ++ back) ≡ none
  read_lines-append_none d [] back h = absurd (none_driver d (sym h ∙ read_lines-nil d))
  read_lines-append_none d (l ∷ front) back h =
      elim (Option-cases (read_response_code number d l)) [
        | inl n ↦ read_lines-crash d l (front ++ back) n
        | inr (x, r) ↦
            read_lines-next number d x l (front ++ back) r
            ∙ read_lines-append_none x front back (sym (read_lines-next number d x l front r) ∙ h)
      ]

  read_lines-append_some :
      (d e : Driver) (front back : List Bytes)
      → read_lines number d front ≡ some e
      → read_lines number d (front ++ back) ≡ read_lines number e back
  read_lines-append_some d e [] back h =
      ap (λ x. read_lines number x back) (same_driver d e (sym (read_lines-nil d) ∙ h))
  read_lines-append_some d e (l ∷ front) back h =
      elim (Option-cases (read_response_code number d l)) [
        | inl n ↦ absurd (none_driver e (sym (read_lines-crash d l front n) ∙ h))
        | inr (x, r) ↦
            read_lines-next number d x l (front ++ back) r
            ∙ read_lines-append_some x e front back (sym (read_lines-next number d x l front r) ∙ h)
      ]

  -- However the output of the printer is cut into the pieces that the reads give, the driver reads
  -- the lines of the whole, each once and in their order, and keeps what is behind the last newline;
  -- it crashes only if reading those lines does. No line was left in the read buffer before.
  pub take_pieces-whole :
      (d : Driver) (buf : Bytes) (ps : List Bytes)
      → count lf buf ≡ 0
      → take_pieces d buf ps ≡ reads d (cut (buf ++ joined ps))
  take_pieces-whole d buf [] h =
      (unfold take_pieces in
        sym (
          ap (λ t. reads d (cut t)) (append-nil buf)
          ∙ ap (reads d) (cut-free buf h)
          ∙ ap (with_rest buf) (read_lines-nil d)))
  take_pieces-whole d buf (p ∷ ps) h =
      let c = cut (buf ++ p) in
      let whole =
        ap cut (sym (append_assoc buf p (joined ps))) ∙ cut-append (buf ++ p) (joined ps) in
      let back = cut (c.1 ++ joined ps) in
      let lines = ap (λ t. read_lines number d t) (map-append received_line c.0 back.0) in
      let first = take_lines-cut (length (buf ++ p)) d (buf ++ p) (le_refl (length (buf ++ p))) in
      take_pieces-cons d buf p ps
      ∙ ap (then_pieces ps) first
      ∙ elim (Option-cases (read_lines number d (map received_line c.0))) [
        | inl n ↦
            ap (λ o. then_pieces ps (with_rest c.1 o)) n
            ∙ sym (
                ap (reads d) whole
                ∙ ap (with_rest back.1) (
                    lines
                    ∙ read_lines-append_none d (map received_line c.0) (map received_line back.0)
                        n))
        | inr (x, r) ↦
            ap (λ o. then_pieces ps (with_rest c.1 o)) r
            ∙ take_pieces-whole x c.1 ps (cut-rest (buf ++ p))
            ∙ sym (
                ap (reads d) whole
                ∙ ap (with_rest back.1) (
                    lines
                    ∙ read_lines-append_some d x (map received_line c.0) (map received_line back.0)
                        r))
      ]
