-- ===== src/GcodeBuffer/Clean/Newlines.antt =====
-- The newline passes of cleanupGCode: the loop over `\n\n`, and both ends of the bucket.
use print3d.Prelude.{
  ℕ, zero, suc, ◌+◌, ◌-◌, ◌<◌, ◌≡◌, refl, sym, ap, ◌∙◌, Bool, true, false, ◌||◌, ◌⊎◌, none, some,
  [], ◌∷◌, ◌++◌, arith, ◌==◌, if◌then◌else◌, take, drop, length, get_or, inl, inr, Bool-cases,
  Option-cases, length-append, append_assoc, map,
}
use print3d.Prelude.Text.{Bytes, lf, last?, find_text, index_of_text, drop-append}
use print3d.GcodeBuffer.Cleanup.{
  double_lf, ends_open, to_lf, double_newline_loop, erase_first_empty, end_line, tidy_newlines,
}
use print3d.GcodeBuffer.Clean.{opens, is_eol, clean_from}
use print3d.GcodeBuffer.Clean.Passes.{
  strip, strip_newline, strip_drop, strip_keep, squeeze, squeeze-none, squeeze_some,
}

-- What a bucket holds between calls: nothing, or lines that are ended, the first not empty.
abbrev pub IsTidy : Bytes → Type 0
IsTidy s = (s ≡ []) ⊎ ((f : Bytes) × (s ≡ f ++ (lf ∷ [])) × ((get_or s 0 lf == lf) ≡ false))

find_text-none : (w r p : Bytes) → index_of_text p r ≡ none → find_text (w ++ r) p (length w) ≡ none
unfolding find_text
find_text-none w r p h = ground (arith, drop-append w r)

find_text-some :
    (w r p : Bytes) (i : ℕ)
    → index_of_text p r ≡ some i
    → find_text (w ++ r) p (length w) ≡ some (length w + i)
unfolding find_text
find_text-some w r p i h = ground (arith, drop-append w r)

-- Two newlines made one, on a text cut at the place.
join_pair :
    (w b : Bytes)
    → take (length w) (w ++ (lf ∷ lf ∷ b)) ++ (lf ∷ drop (length w + 2) (w ++ (lf ∷ lf ∷ b)))
      ≡ w ++ (lf ∷ b)
join_pair [] b = refl
join_pair (x ∷ w) b =
    let e : suc (length w) + 2 ≡ suc (length w + 2) = omega arith in
    let l = w ++ (lf ∷ lf ∷ b) in
    ap (λ n. x ∷ (take (length w) l ++ (lf ∷ drop n (x ∷ l)))) e ∙ ap (◌∷◌ x) (join_pair w b)

double_newline_loop_lem :
    (fuel : ℕ) (pre r s : Bytes) (p : ℕ)
    → s ≡ pre ++ r
    → p ≡ length pre
    → length r < fuel
    → double_newline_loop fuel s p ≡ pre ++ squeeze false r
unfolding double_newline_loop
double_newline_loop_lem zero pre r s p es ep h = absurd (omega arith)
double_newline_loop_lem (suc fuel) pre r s p es ep h =
    elim (Option-cases (index_of_text double_lf r)) [
      | inl e ↦
          let found : find_text s double_lf p ≡ none =
            rw (es, ep) (find_text-none pre r double_lf e) in
          rw (found, double_newline_loop) (es ∙ ap (λ t. pre ++ t) (sym (squeeze-none r e)))
      | inr (i, e) ↦
          let f = squeeze_some r i e in
          let at_pair : length pre + i ≡ length (pre ++ f.before) =
            omega (arith, f.at_index, length-append pre f.before) in
          let found : find_text s double_lf p ≡ some (length (pre ++ f.before)) =
            rw (es, ep) (find_text-some pre r double_lf i e ∙ ap some at_pair) in
          let text : s ≡ (pre ++ f.before) ++ (lf ∷ lf ∷ f.behind) =
            es ∙ ap (λ t. pre ++ t) f.splits ∙ sym (append_assoc pre f.before _) in
          rw (found, double_newline_loop)
            (double_newline_loop_lem fuel (pre ++ f.before) (lf ∷ f.behind) _ _
                (rw text (join_pair (pre ++ f.before) f.behind)) refl
                (omega (arith, ap length f.splits, length-append f.before (lf ∷ lf ∷ f.behind)))
              ∙ append_assoc pre f.before _
              ∙ ap (λ t. pre ++ t) (sym f.squeezed))
    ]

-- What `end_line` does behind a byte that is no newline.
abbrev close_line : Bytes → Bytes
close_line [] = lf ∷ []
close_line (c ∷ s) = end_line (c ∷ s)

end_line_newline : (s : Bytes) → end_line (lf ∷ s) ≡ lf ∷ end_line s
unfolding end_line
end_line_newline [] = refl
end_line_newline (c ∷ s) = ground arith

end_line_byte : (c : ℕ) (s : Bytes) → (c == lf) ≡ false → end_line (c ∷ s) ≡ c ∷ close_line s
unfolding end_line
end_line_byte c [] h = ground arith
end_line_byte c (d ∷ s) h = ground arith

-- The two newline passes behind a byte of each kind.
pub finish : Bool → Bytes → Bytes
finish true t = end_line (squeeze true t)
finish false t = close_line (squeeze false t)

finish_newline :
    (fresh : Bool) (t : Bytes)
    → finish fresh (lf ∷ t) ≡ (if fresh then finish true t else lf ∷ finish true t)
unfolding finish squeeze
finish_newline true t = refl
finish_newline false t = end_line_newline (squeeze true t)

finish_byte :
    (fresh : Bool) (c : ℕ) (t : Bytes)
    → (c == lf) ≡ false
    → finish fresh (c ∷ t) ≡ c ∷ finish false t
unfolding finish squeeze
finish_byte true c t h = rw (h, squeeze) (end_line_byte c (squeeze false t) h)
finish_byte false c t h = rw (h, squeeze) (end_line_byte c (squeeze false t) h)

opens-map : (keep : Bool) (c : ℕ) (s : Bytes) → opens keep c (map to_lf s) ≡ opens keep c s
opens-map keep c [] = refl
opens-map keep c (x ∷ s) = ground arith

to_lf_eol : (c : ℕ) → is_eol c ≡ true → to_lf c ≡ lf
to_lf_eol c h = ground arith

to_lf_other : (c : ℕ) → is_eol c ≡ false → to_lf c ≡ c
to_lf_other c h = ground arith

pub no_lf : (c : ℕ) → is_eol c ≡ false → (c == lf) ≡ false
no_lf c h = ground arith

clean_from_eol :
    (keep inside fresh : Bool) (c : ℕ) (cs : Bytes)
    → is_eol c ≡ true
    → clean_from keep inside fresh (c ∷ cs)
      ≡ (if fresh then clean_from keep false true cs else lf ∷ clean_from keep false true cs)
unfolding clean_from
clean_from_eol keep inside true c cs e = rw (e, clean_from)
clean_from_eol keep inside false c cs e = rw (e, clean_from)

-- The passes behind one another are the one pass of the reference, from any place in a line.
pub passes-clean_from :
    (keep inside fresh : Bool) (s : Bytes)
    → finish fresh (strip keep inside (map to_lf s)) ≡ clean_from keep inside fresh s
unfolding clean_from
passes-clean_from keep inside true [] = unfold strip squeeze end_line finish in refl
passes-clean_from keep inside false [] = unfold strip squeeze end_line finish in refl
passes-clean_from keep inside fresh (c ∷ cs) =
    let s = map to_lf cs in
    elim (Bool-cases (is_eol c)) [
      | inl e ↦
          ap (λ b. finish fresh (strip keep inside (b ∷ s))) (to_lf_eol c e)
          ∙ ap (finish fresh) (strip_newline keep inside s)
          ∙ finish_newline fresh (strip keep false s)
          ∙ ap (λ t. if fresh then t else lf ∷ t) (passes-clean_from keep false true cs)
          ∙ sym (clean_from_eol keep inside fresh c cs e)
      | inr e ↦
          let same = ap (λ b. finish fresh (strip keep inside (b ∷ s))) (to_lf_other c e) in
          elim (Bool-cases (inside || opens keep c cs)) [
            | inl o ↦
                same
                ∙ ap (finish fresh) (strip_drop keep inside c s (no_lf c e) (rw opens-map o))
                ∙ passes-clean_from keep true fresh cs
                ∙ rw (e, clean_from) (rw o)
            | inr o ↦
                same
                ∙ ap (finish fresh) (strip_keep keep inside c s (no_lf c e) (rw opens-map o))
                ∙ finish_byte fresh c (strip keep false s) (no_lf c e)
                ∙ ap (◌∷◌ c) (passes-clean_from keep false false cs)
                ∙ rw (e, clean_from) (rw o)
          ]
    ]

-- Behind an ended line `end_line` looks at what was added only.
pub ends_open_behind : (f t : Bytes) → last? (f ++ (lf ∷ t)) ≡ last? (lf ∷ t)
ends_open_behind [] t = refl
ends_open_behind (x ∷ []) t = refl
ends_open_behind (x ∷ y ∷ f) t = ends_open_behind (y ∷ f) t

end_line_cases : (a b : Bytes) → last? (a ++ b) ≡ last? b → end_line (a ++ b) ≡ a ++ end_line b
unfolding end_line
end_line_cases a b e = elim (Bool-cases (ends_open (last? b))) [
  | inl o ↦ rw (e, o) (append_assoc a b (lf ∷ []))
  | inr o ↦ rw (e, o)
]

end_line-append : (f t : Bytes) → end_line (f ++ (lf ∷ t)) ≡ f ++ (lf ∷ end_line t)
end_line-append f t =
    end_line_cases f (lf ∷ t) (ends_open_behind f t) ∙ ap (λ u. f ++ u) (end_line_newline t)

erase_first-squeeze : (t : Bytes) → erase_first_empty (squeeze false t) ≡ squeeze true t
unfolding erase_first_empty squeeze
erase_first-squeeze [] = refl
erase_first-squeeze (c ∷ t) = ground arith

erase_first_tidy :
    (f u : Bytes)
    → (get_or (f ++ (lf ∷ [])) 0 lf == lf) ≡ false
    → erase_first_empty (f ++ (lf ∷ u)) ≡ f ++ (lf ∷ u)
unfolding erase_first_empty
erase_first_tidy [] u h = cc
erase_first_tidy (x ∷ f) u h = rw h

tidy_newlines_first : (t : Bytes) → tidy_newlines 0 t ≡ finish true t
unfolding tidy_newlines finish
tidy_newlines_first t =
    ap (λ u. end_line (erase_first_empty u))
      (double_newline_loop_lem (length t + 1) [] t t 0 refl refl (omega arith))
    ∙ ap end_line (erase_first-squeeze t)

tidy_newlines_later :
    (f t : Bytes)
    → (get_or (f ++ (lf ∷ [])) 0 lf == lf) ≡ false
    → tidy_newlines (length f + 1) (f ++ (lf ∷ t)) ≡ f ++ (lf ∷ finish true t)
unfolding tidy_newlines finish squeeze
tidy_newlines_later f t ne =
    ap (λ u. end_line (erase_first_empty u))
      (double_newline_loop_lem (length (f ++ (lf ∷ t)) + 1) f (lf ∷ t) (f ++ (lf ∷ t))
        (length f + 1 - 1) refl (omega arith) (omega (arith, length-append f (lf ∷ t))))
    ∙ ap end_line (erase_first_tidy f (squeeze true t) ne)
    ∙ end_line-append f (squeeze true t)

-- From `pos` on, in an empty bucket or behind ended lines, the newline passes see the new text only.
pub tidy_newlines-append :
    (pre t : Bytes) → IsTidy pre → tidy_newlines (length pre) (pre ++ t) ≡ pre ++ finish true t
tidy_newlines-append pre t (inl e) = rw e (tidy_newlines_first t)
tidy_newlines-append pre t (inr (f, e, ne)) =
    rw (e, append_assoc f (lf ∷ []) t, append_assoc f (lf ∷ []) (finish true t))
      (let k : length (f ++ (lf ∷ [])) ≡ length f + 1 = length-append f (lf ∷ []) in
        rw k (tidy_newlines_later f t (rw e at ne)))
