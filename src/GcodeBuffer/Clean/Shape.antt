-- ===== src/GcodeBuffer/Clean/Shape.antt =====
-- The reference on its own: what clean gcode looks like, and that it may be cleaned in parts.
use print3d.Prelude.{
  ℕ, ◌≡◌, refl, ap, sym, ◌∙◌, Bool, true, false, ◌||◌, [], ◌∷◌, ◌++◌, ◌==◌, get_or, inl, inr,
  Bool-cases, append_assoc, append-nil, subst,
}
use print3d.Prelude.Text.{Bytes, lf}
use print3d.GcodeBuffer.Clean.{opens, is_eol, clean_from, clean}
use print3d.GcodeBuffer.Clean.Newlines.{IsTidy, no_lf}

-- One byte of the reference.
module _ (keep inside : Bool) (c : ℕ) (cs : Bytes) where
  step_fresh :
      is_eol c ≡ true → clean_from keep inside true (c ∷ cs) ≡ clean_from keep false true cs
  unfolding clean_from
  step_fresh e = rw (e, clean_from)

  step_end :
      is_eol c ≡ true → clean_from keep inside false (c ∷ cs) ≡ lf ∷ clean_from keep false true cs
  unfolding clean_from
  step_end e = rw (e, clean_from)

  module _ (fresh : Bool) (e : is_eol c ≡ false) where
    step_drop :
        (inside || opens keep c cs) ≡ true
        → clean_from keep inside fresh (c ∷ cs) ≡ clean_from keep true fresh cs
    unfolding clean_from
    step_drop o = rw (e, clean_from) (rw o)

    step_keep :
        (inside || opens keep c cs) ≡ false
        → clean_from keep inside fresh (c ∷ cs) ≡ c ∷ clean_from keep false false cs
    unfolding clean_from
    step_keep o = rw (e, clean_from) (rw o)

-- Lines, the last of them ended.
abbrev pub Ended : Bytes → Type 0
Ended s = (f : Bytes) × (s ≡ f ++ (lf ∷ []))

pub Ended-cons : (c : ℕ) (s : Bytes) → Ended s → Ended (c ∷ s)
Ended-cons c s (f, e) = (c ∷ f, ap (◌∷◌ c) e)

pub Ended-line : (s : Bytes) → IsTidy s → Ended (lf ∷ s)
Ended-line s (inl e) = ([], ap (◌∷◌ lf) e)
Ended-line s (inr (f, e, h)) = (lf ∷ f, ap (◌∷◌ lf) e)

pub IsTidy-cons : (c : ℕ) (s : Bytes) → (c == lf) ≡ false → Ended s → IsTidy (c ∷ s)
IsTidy-cons c s h (f, e) = inr (c ∷ f, ap (◌∷◌ c) e, h)

abbrev pub Shaped : Bool → Bytes → Type 0
Shaped true s = IsTidy s
Shaped false s = Ended s

pub Shaped-cons :
    (fresh : Bool) (c : ℕ) (s : Bytes) → (c == lf) ≡ false → Ended s → Shaped fresh (c ∷ s)
Shaped-cons true c s h e = IsTidy-cons c s h e
Shaped-cons false c s h e = Ended-cons c s e

-- From any place: a line that was begun is ended, and no empty line comes first.
clean_from-Shaped :
    (s : Bytes) (keep inside fresh : Bool) → Shaped fresh (clean_from keep inside fresh s)
unfolding clean_from
clean_from-Shaped [] keep inside true = inl refl
clean_from-Shaped [] keep inside false = ([], refl)
clean_from-Shaped (c ∷ cs) keep inside fresh = elim (Bool-cases (is_eol c)) [
  | inl e ↦ at_end fresh e (clean_from-Shaped cs keep false true)
  | inr e ↦ elim (Bool-cases (inside || opens keep c cs)) [
    | inl o ↦
        subst (λ t. Shaped fresh t) (sym (step_drop keep inside c cs fresh e o))
          (clean_from-Shaped cs keep true fresh)
    | inr o ↦
        subst (λ t. Shaped fresh t) (sym (step_keep keep inside c cs fresh e o))
          (Shaped-cons fresh c _ (no_lf c e) (clean_from-Shaped cs keep false false))
  ]
]
  where
    at_end :
        (fresh : Bool)
        → is_eol c ≡ true
        → IsTidy (clean_from keep false true cs)
        → Shaped fresh (clean_from keep inside fresh (c ∷ cs))
    at_end true e t = subst (λ u. IsTidy u) (sym (step_fresh keep inside c cs e)) t
    at_end false e t =
        subst (λ u. Ended u) (sym (step_end keep inside c cs e))
          (Ended-line (clean_from keep false true cs) t)

-- Clean gcode is tidy, also behind tidy lines.
pub clean-IsTidy : (keep : Bool) (s : Bytes) → IsTidy (clean keep s)
unfolding clean
clean-IsTidy keep s = clean_from-Shaped s keep false true

pub IsTidy-append : (a b : Bytes) → IsTidy a → IsTidy b → IsTidy (a ++ b)
IsTidy-append a b (inl e) t = subst (λ u. IsTidy (u ++ b)) (sym e) t
IsTidy-append a b (inr x) (inl e) =
    subst (λ u. IsTidy u) (sym (ap (λ u. a ++ u) e ∙ append-nil a)) (inr x)
IsTidy-append a b (inr (f, e, h)) (inr (g, d, k)) =
    inr (a ++ g, ap (λ u. a ++ u) d ∙ sym (append_assoc a g (lf ∷ [])), front a f e h)
  where
    front :
        (a f : Bytes)
        → a ≡ f ++ (lf ∷ [])
        → (get_or a 0 lf == lf) ≡ false
        → (get_or (a ++ b) 0 lf == lf) ≡ false
    front [] f e h = cc
    front (x ∷ a) f e h = h

opens-append :
    (keep : Bool) (c : ℕ) (a r : Bytes)
    → opens keep c ((a ++ (lf ∷ [])) ++ r) ≡ opens keep c (a ++ (lf ∷ []))
opens-append keep c [] r = refl
opens-append keep c (x ∷ a) r = refl

cut_at_end :
    (keep inside fresh : Bool) (c : ℕ) (e : is_eol c ≡ true) (x r : Bytes)
    → clean_from keep false true (x ++ r)
      ≡ clean_from keep false true x ++ clean_from keep false true r
    → clean_from keep inside fresh (c ∷ (x ++ r))
      ≡ clean_from keep inside fresh (c ∷ x) ++ clean_from keep false true r
cut_at_end keep inside true c e x r h =
    step_fresh keep inside c (x ++ r) e
    ∙ h
    ∙ ap (λ t. t ++ clean_from keep false true r) (sym (step_fresh keep inside c x e))
cut_at_end keep inside false c e x r h =
    step_end keep inside c (x ++ r) e
    ∙ ap (◌∷◌ lf) h
    ∙ ap (λ t. t ++ clean_from keep false true r) (sym (step_end keep inside c x e))

-- At a newline the text may be cut: its parts are cleaned by themselves.
clean_from-append :
    (a r : Bytes) (keep inside fresh : Bool)
    → clean_from keep inside fresh ((a ++ (lf ∷ [])) ++ r)
      ≡ clean_from keep inside fresh (a ++ (lf ∷ [])) ++ clean_from keep false true r
unfolding clean_from
clean_from-append [] r keep inside true = refl
clean_from-append [] r keep inside false = refl
clean_from-append (c ∷ a) r keep inside fresh = elim (Bool-cases (is_eol c)) [
  | inl e ↦
      cut_at_end keep inside fresh c e (a ++ (lf ∷ [])) r (clean_from-append a r keep false true)
  | inr e ↦ elim (Bool-cases (inside || opens keep c (a ++ (lf ∷ [])))) [
    | inl o ↦
        step_drop keep inside c ((a ++ (lf ∷ [])) ++ r) fresh e (rw opens-append o)
        ∙ clean_from-append a r keep true fresh
        ∙ ap (λ t. t ++ clean_from keep false true r)
            (sym (step_drop keep inside c (a ++ (lf ∷ [])) fresh e o))
    | inr o ↦
        step_keep keep inside c ((a ++ (lf ∷ [])) ++ r) fresh e (rw opens-append o)
        ∙ ap (◌∷◌ c) (clean_from-append a r keep false false)
        ∙ ap (λ t. t ++ clean_from keep false true r)
            (sym (step_keep keep inside c (a ++ (lf ∷ [])) fresh e o))
  ]
]

pub clean-append :
    (keep : Bool) (a r : Bytes)
    → clean keep ((a ++ (lf ∷ [])) ++ r) ≡ clean keep (a ++ (lf ∷ [])) ++ clean keep r
unfolding clean
clean-append keep a r = clean_from-append a r keep false true
