-- ===== src/GcodeBuffer/Clean/Whole.antt =====
-- Whole lines: text in which every line is ended and none is empty. It is what the reference
-- writes, and what a bucket of the buffer holds at all times.
use print3d.Prelude.{
  ℕ, ◌≡◌, refl, subst, Bool, true, false, [], ◌∷◌, ◌++◌, arith, ◌==◌, inl, inr, Bool-cases,
}
use print3d.Prelude.Text.{Bytes, lf}
use print3d.GcodeBuffer.Clean.{clean_from, clean}
use print3d.GcodeBuffer.Clean.Newlines.{IsTidy}
use print3d.GcodeBuffer.Clean.Shape.{Ended-line, Shaped, Shaped-cons}

-- The flag says that no byte of the line was read yet.
unfoldable pub whole_lines : Bool → Bytes → Bool
whole_lines fresh [] = fresh
whole_lines fresh (c ∷ cs) = elim (c == lf) [
  | true ↦ elim fresh [ true ↦ false | false ↦ whole_lines true cs ]
  | false ↦ whole_lines false cs
]

abbrev pub IsWhole : Bytes → Type 0
IsWhole s = whole_lines true s ≡ true

Shaped-line :
    (fresh : Bool) (c : ℕ) (cs : Bytes)
    → (c == lf) ≡ true
    → elim fresh [ true ↦ false | false ↦ whole_lines true cs ] ≡ true
    → (whole_lines true cs ≡ true → IsTidy cs)
    → Shaped fresh (c ∷ cs)
Shaped-line true c cs e h t = absurd (ground arith)
Shaped-line false c cs e h t =
    let k : lf ≡ c = ground arith in subst (λ x. Shaped false (x ∷ cs)) k (Ended-line cs (t h))

whole_lines-Shaped : (s : Bytes) (fresh : Bool) → whole_lines fresh s ≡ true → Shaped fresh s
unfolding whole_lines
whole_lines-Shaped [] true h = inl refl
whole_lines-Shaped [] false h = cc
whole_lines-Shaped (c ∷ cs) fresh h = elim (Bool-cases (c == lf)) [
  | inl e ↦ Shaped-line fresh c cs e (rw (e, whole_lines) at h) (whole_lines-Shaped cs true)
  | inr e ↦ Shaped-cons fresh c cs e (whole_lines-Shaped cs false (rw (e, whole_lines) at h))
]

pub IsWhole-IsTidy : (s : Bytes) → IsWhole s → IsTidy s
IsWhole-IsTidy s h = whole_lines-Shaped s true h

whole_lines-append :
    (a b : Bytes) (fresh : Bool)
    → whole_lines fresh a ≡ true
    → IsWhole b
    → whole_lines fresh (a ++ b) ≡ true
unfolding whole_lines
whole_lines-append [] b fresh h k = ground arith
whole_lines-append (c ∷ a) b fresh h k =
    ground (arith, whole_lines-append a b true, whole_lines-append a b false)

pub IsWhole-append : (a b : Bytes) → IsWhole a → IsWhole b → IsWhole (a ++ b)
IsWhole-append a b h k = whole_lines-append a b true h k

whole_lines-behind :
    (a r : Bytes) (fresh : Bool) → whole_lines fresh (a ++ (lf ∷ r)) ≡ true → IsWhole r
unfolding whole_lines
whole_lines-behind [] r fresh h = ground arith
whole_lines-behind (c ∷ a) r fresh h =
    ground (arith, whole_lines-behind a r true, whole_lines-behind a r false)

pub IsWhole-behind : (a r : Bytes) → IsWhole (a ++ (lf ∷ r)) → IsWhole r
IsWhole-behind a r h = whole_lines-behind a r true h

clean_from-whole :
    (s : Bytes) (keep inside fresh : Bool)
    → whole_lines fresh (clean_from keep inside fresh s) ≡ true
unfolding clean_from whole_lines
clean_from-whole [] keep inside fresh = ground arith
clean_from-whole (c ∷ cs) keep inside fresh = ground (
  arith,
  clean_from-whole cs keep false true,
  clean_from-whole cs keep true fresh,
  clean_from-whole cs keep false false,
)

pub clean-IsWhole : (keep : Bool) (s : Bytes) → IsWhole (clean keep s)
unfolding clean
clean-IsWhole keep s = clean_from-whole s keep false true
