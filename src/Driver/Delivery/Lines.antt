-- ===== src/Driver/Delivery/Lines.antt =====
-- The line at the front of a buffer whose text is given as a list of lines.
use print3d.Prelude.{
  ℕ, ◌+◌, ◌≤◌, ◌≡◌, ◌≢◌, refl, sym, ◌∙◌, Option, none, some, List, [], ◌∷◌, ◌++◌, arith, length,
}
use print3d.Prelude.Text.{Bytes, codes, lf, count, rfind_text}
use print3d.Ipc.Command.{c_text}
use print3d.GcodeBuffer.State.{GcodeBuffer}
use print3d.GcodeBuffer.Lines.{get_next_line, erase_line, seek_next}
use print3d.GcodeBuffer.Contents.{joined}
use print3d.GcodeBuffer.Counts.{IsValid}
use print3d.GcodeBuffer.Front.{erase_line-TakesLine}
use print3d.GcodeBuffer.Packed.{Packed, erase_line-Packed}

-- The lines one behind the other, each ended.
abbrev pub ended : List Bytes → Bytes
ended [] = []
ended (l ∷ ls) = l ++ (lf ∷ ended ls)

-- Behind a heat command there is room for its number, so that reading it does not throw.
abbrev pub HasRoom : Option ℕ → ℕ → Type 0
HasRoom none n = Unit
HasRoom (some p) n = p + 6 ≤ n

abbrev pub IsReadable : Bytes → Type 0
IsReadable l =
    HasRoom (rfind_text l (codes "M109")) (length l)
    × HasRoom (rfind_text l (codes "M190")) (length l)

-- Each is one line, and can be read.
abbrev pub AreLines : List Bytes → Type 0
AreLines [] = Unit
AreLines (l ∷ ls) = (count lf l ≡ 0) × IsReadable l × AreLines ls

-- What goes over the port for a line.
abbrev pub sent_line : Bytes → Bytes
sent_line l = c_text (l ++ (lf ∷ []))

-- A text is cut into lines in one way.
ended_unique :
    (l m s t : Bytes)
    → count lf l ≡ 0
    → count lf m ≡ 0
    → l ++ (lf ∷ s) ≡ m ++ (lf ∷ t)
    → (l ≡ m) × (s ≡ t)
ended_unique [] [] s t h k e = ground arith
ended_unique [] (c ∷ m) s t h k e = absurd (ground arith)
ended_unique (c ∷ l) [] s t h k e = absurd (ground arith)
ended_unique (c ∷ l) (b ∷ m) s t h k e = ground (arith, ended_unique l m s t)

text_front :
    (bs : List Bytes) (line rest : Bytes)
    → Packed bs
    → joined bs ≡ line ++ (lf ∷ rest)
    → (s : Bytes) × (r : List Bytes) × (bs ≡ s ∷ r) × (s ≢ [])
text_front [] [] rest h e = absurd (cc)
text_front [] (c ∷ line) rest h e = absurd (cc)
text_front ([] ∷ []) [] rest h e = absurd (cc)
text_front ([] ∷ []) (c ∷ line) rest h e = absurd (cc)
text_front ((x ∷ s) ∷ []) line rest h e = (x ∷ s, [], refl, λ z. cc)
text_front (s ∷ t ∷ bs) line rest h e = (s, t ∷ bs, refl, h.0)

-- The line that the text begins with is shown, and erasing it leaves the others.
pub record Front (b : GcodeBuffer) (l : Bytes) (ls : List Bytes) : Type 0 where
  pub shown : get_next_line b 1 ≡ (1, l)
  pub erased : joined (erase_line b 1).0.buckets ≡ ended ls
  pub still_valid : IsValid (erase_line b 1).0
  pub still_packed : Packed (erase_line b 1).0.buckets

pub text-Front :
    (b : GcodeBuffer) (l : Bytes) (ls : List Bytes)
    → IsValid b
    → Packed b.buckets
    → count lf l ≡ 0
    → joined b.buckets ≡ ended (l ∷ ls)
    → Front b l ls
text-Front b l ls v p one e =
    let (s, r, front, ne) = text_front b.buckets l (ended ls) p e in
    let t = erase_line-TakesLine b s r v front ne in
    let (same, rest) =
      ended_unique (get_next_line b 1).1 l (joined (erase_line b 1).0.buckets) (ended ls) t.one_line
        one (sym t.first ∙ e) in
    record {
      shown = ground (arith, t.one_shown, same);
      erased = rest;
      still_valid = t.stays_valid;
      still_packed = erase_line-Packed b s r front p;
    }

pub empty_shown :
    (b : GcodeBuffer) (bs : List Bytes)
    → b.buckets ≡ bs
    → joined bs ≡ []
    → (get_next_line b 1).0 ≡ 0
unfolding get_next_line seek_next
empty_shown b [] front e = rw front refl
empty_shown b ([] ∷ r) front e = rw front refl
empty_shown b ((x ∷ s) ∷ r) front e = absurd (cc)
