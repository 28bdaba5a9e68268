-- ===== src/GcodeBuffer/Clean/Passes.antt =====
-- What each pass of cleanupGCode does to a text, as a function of the text alone.
use print3d.Prelude.{
  ℕ, suc, ◌≡◌, refl, ap, ◌∙◌, Bool, true, false, ◌||◌, none, some, [], ◌∷◌, ◌++◌, arith, ◌==◌,
  length, subst, inl, inr, Bool-cases, Option-cases, ◌&&◌,
}
use print3d.Prelude.Text.{Bytes, lf, count, index_of_text}
use print3d.GcodeBuffer.Cleanup.{double_lf}
use print3d.GcodeBuffer.Clean.{opens}

-- Comments removed, from a place inside or outside a comment.
unfoldable pub strip : Bool → Bool → Bytes → Bytes
strip keep inside [] = []
strip keep true (c ∷ cs) = elim (c == lf) [
  | true ↦ c ∷ strip keep false cs
  | false ↦ strip keep true cs
]
strip keep false (c ∷ cs) = elim (opens keep c cs) [
  | true ↦ strip keep true cs
  | false ↦ c ∷ strip keep false cs
]

-- Newlines removed that stand behind a newline; the flag says that one stands in front.
unfoldable pub squeeze : Bool → Bytes → Bytes
squeeze nl [] = []
squeeze nl (c ∷ cs) = elim (c == lf) [
  | true ↦ elim nl [ true ↦ squeeze true cs | false ↦ c ∷ squeeze true cs ]
  | false ↦ c ∷ squeeze false cs
]

-- A text with no `;` in front is passed over.
pub strip_plain :
    (keep : Bool) (a r : Bytes)
    → count b';' a ≡ 0
    → strip keep false (a ++ r) ≡ a ++ strip keep false r
unfolding strip
strip_plain keep [] r h = refl
strip_plain keep (c ∷ a) r h = ground (arith, strip_plain keep a r)

-- Inside a comment all is dropped up to the newline.
pub strip_inside :
    (keep : Bool) (a r : Bytes) → count lf a ≡ 0 → strip keep true (a ++ r) ≡ strip keep true r
unfolding strip
strip_inside keep [] r h = refl
strip_inside keep (c ∷ a) r h = ground (arith, strip_inside keep a r)

pub strip_open :
    (keep : Bool) (r : Bytes)
    → opens keep b';' r ≡ true
    → strip keep false (b';' ∷ r) ≡ strip keep true (b';' ∷ r)
unfolding strip
strip_open keep r h = rw (h, strip)

pub strip_at_newline :
    (keep : Bool) (r : Bytes) → strip keep true (lf ∷ r) ≡ strip keep false (lf ∷ r)
unfolding strip
strip_at_newline keep r = refl

pub strip_macro :
    (keep : Bool) (r : Bytes)
    → opens keep b';' r ≡ false
    → strip keep false (b';' ∷ r) ≡ b';' ∷ strip keep false r
unfolding strip
strip_macro keep r h = rw (h, strip)

-- One byte of the pass: a newline, a dropped byte, a byte that stays.
pub strip_newline :
    (keep inside : Bool) (r : Bytes) → strip keep inside (lf ∷ r) ≡ lf ∷ strip keep false r
unfolding strip
strip_newline keep true r = refl
strip_newline keep false r = refl

module _ (keep inside : Bool) (c : ℕ) (r : Bytes) (no_lf : (c == lf) ≡ false) where
  pub strip_drop : (inside || opens keep c r) ≡ true → strip keep inside (c ∷ r) ≡ strip keep true r
  unfolding strip
  strip_drop h = ground arith

  pub strip_keep :
      (inside || opens keep c r) ≡ false → strip keep inside (c ∷ r) ≡ c ∷ strip keep false r
  unfolding strip
  strip_keep h = ground arith

-- Behind a byte that is no newline, the flag makes no difference.
squeeze_flag :
    (c : ℕ) (s : Bytes) → (c == lf) ≡ false → squeeze true (c ∷ s) ≡ squeeze false (c ∷ s)
unfolding squeeze
squeeze_flag c s h = rw (h, squeeze)

pub squeeze_pair : (s : Bytes) → squeeze false (lf ∷ lf ∷ s) ≡ squeeze false (lf ∷ s)
unfolding squeeze
squeeze_pair s = refl

-- With no pair of newlines nothing is removed.
pub squeeze-none : (s : Bytes) → index_of_text double_lf s ≡ none → squeeze false s ≡ s
unfolding squeeze index_of_text
squeeze-none [] h = refl
squeeze-none (x ∷ []) h = ground arith
squeeze-none (x ∷ y ∷ s) h = ground (arith, squeeze-none (y ∷ s))

-- Up to the first pair nothing is removed.
pub record FirstPair (s : Bytes) (i : ℕ) : Type 0 where
  pub before : Bytes
  pub behind : Bytes
  pub splits : s ≡ before ++ (lf ∷ lf ∷ behind)
  pub at_index : i ≡ length before
  pub squeezed : squeeze false s ≡ before ++ squeeze false (lf ∷ behind)

squeeze_next :
    (x y : ℕ) (s : Bytes)
    → (x == lf && y == lf) ≡ false
    → squeeze false (x ∷ y ∷ s) ≡ x ∷ squeeze false (y ∷ s)
unfolding squeeze
squeeze_next x y s h = ground arith

FirstPair-cons :
    (x y : ℕ) {s : Bytes} {i : ℕ}
    → (x == lf && y == lf) ≡ false
    → FirstPair (y ∷ s) i
    → FirstPair (x ∷ y ∷ s) (suc i)
FirstPair-cons x y {s} ne f = record {
  before = x ∷ f.before;
  behind = f.behind;
  splits = ap (◌∷◌ x) f.splits;
  at_index = ap suc f.at_index;
  squeezed = squeeze_next x y s ne ∙ ap (◌∷◌ x) f.squeezed;
}

pub squeeze_some : (s : Bytes) (i : ℕ) → index_of_text double_lf s ≡ some i → FirstPair s i
unfolding index_of_text
squeeze_some [] i h = cc
squeeze_some (x ∷ []) i h = absurd (ground arith)
squeeze_some (x ∷ y ∷ s) i h = elim (Bool-cases (x == lf && y == lf)) [
  | inl e ↦ record {
    before = [];
    behind = s;
    splits = ground arith;
    at_index = ground arith;
    squeezed = unfold squeeze in ground arith;
  }
  | inr ne ↦ elim (Option-cases (index_of_text double_lf (y ∷ s))) [
    | inl e ↦ absurd (ground arith)
    | inr (j, e) ↦
        let k : suc j ≡ i = ground arith in
        subst (λ n. FirstPair (x ∷ y ∷ s) n) k (FirstPair-cons x y ne (squeeze_some (y ∷ s) j e))
  ]
]
