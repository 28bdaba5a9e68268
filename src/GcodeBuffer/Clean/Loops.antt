-- ===== src/GcodeBuffer/Clean/Loops.antt =====
-- The comment loop of cleanupGCode, with its searches, erasures and restarts, is one pass.
use print3d.Prelude.{
  ℕ, zero, suc, ◌+◌, ◌*◌, ◌≤◌, ◌<◌, ◌≡◌, refl, sym, ap, ◌∙◌, Bool, true, false, not, none, some, [],
  ◌∷◌, ◌++◌, arith, ◌==◌, if◌then◌else◌, length, get_or, inl, inr, subst, Bool-cases, Option-cases,
  length-append, append-nil, append_assoc,
}
use print3d.Prelude.Text.{Bytes, count, find, index_of, index_of-none, index_of-some}
use print3d.GcodeBuffer.Cleanup.{Scan, kept, emptied, is_macro, erase_comment, comment_loop}
use print3d.GcodeBuffer.Clean.{opens}
use print3d.GcodeBuffer.Clean.Search.{
  find-none, find-some, is_macro-opens, Erased, erase, Scanned, Scanned-nil, same_head,
  Scanned-plain, Scanned-macro,
}
use print3d.GcodeBuffer.Clean.Passes.{strip, strip_plain, strip_open, strip_macro}

abbrev pub contents : Scan → Bytes
contents (kept s) = s
contents emptied = []

-- One round of the loop: no comment, a macro comment, an erasure.
module _ (fuel : ℕ) (keep : Bool) (pos : ℕ) (s : Bytes) (p : ℕ) where
  round_none : find s b';' p ≡ none → contents (comment_loop (suc fuel) keep pos s p) ≡ s
  unfolding comment_loop
  round_none h = rw (h, comment_loop)

  module _ (q : ℕ) (found : find s b';' p ≡ some q) where
    round_macro :
        is_macro keep s q ≡ true
        → comment_loop (suc fuel) keep pos s p ≡ comment_loop fuel keep pos s (q + 1)
    unfolding comment_loop
    round_macro h = rw (found, comment_loop) (rw h)

    round_erase :
        is_macro keep s q ≡ false
        → contents (comment_loop (suc fuel) keep pos s p) ≡ (
            if length (erase_comment s q) == 0
            then []
            else contents (comment_loop fuel keep pos (erase_comment s q) pos))
    unfolding comment_loop
    round_erase h = rw (found, comment_loop) (rw h (ground arith))

nil_of_empty : (l : Bytes) → (length l == 0) ≡ true → l ≡ []
nil_of_empty [] h = refl
nil_of_empty (x ∷ l) h = absurd (ground arith)

-- Where a `;` stands in what is still to be searched.
record Place (pre mid r : Bytes) (s : Bytes) (p : ℕ) : Type 0 where
  plain : Bytes
  body : Bytes
  before : Bytes
  before_is : before ≡ (pre ++ mid) ++ plain
  rest_is : r ≡ plain ++ (b';' ∷ body)
  no_comment : count b';' plain ≡ 0
  text_is : s ≡ before ++ (b';' ∷ body)
  found : find s b';' p ≡ some (length before)

place :
    (pre mid r s : Bytes) (p i : ℕ)
    → s ≡ (pre ++ mid) ++ r
    → p ≡ length (pre ++ mid)
    → index_of b';' r ≡ some i
    → Place pre mid r s p
place pre mid r s p i es ep h =
    let o = index_of-some b';' r i h in
    record {
      plain = o.before;
      body = o.behind;
      before = (pre ++ mid) ++ o.before;
      before_is = refl;
      rest_is = o.splits;
      no_comment = o.absent;
      text_is =
          es ∙ ap (λ t. (pre ++ mid) ++ t) o.splits ∙ sym (append_assoc (pre ++ mid) o.before _);
      found =
          rw (es, ep)
            (find-some (pre ++ mid) r b';' i h
              ∙ ap some (omega (arith, o.at_index, length-append (pre ++ mid) o.before)));
    }

not-true : (b : Bool) → not b ≡ true → b ≡ false
not-true false h = refl
not-true true h = cc

not-false : (b : Bool) → not b ≡ false → b ≡ true
not-false true h = refl
not-false false h = cc

module _ (keep : Bool) (pre mid plain body : Bytes) (no_comment : count b';' plain ≡ 0) where
  strip_skipped :
      opens keep b';' body ≡ false
      → pre ++ (((mid ++ plain) ++ (b';' ∷ [])) ++ strip keep false body)
        ≡ pre ++ (mid ++ strip keep false (plain ++ (b';' ∷ body)))
  strip_skipped h =
      simp (append_assoc, strip_plain keep plain _ no_comment, strip_macro keep body h)

  strip_erased :
      (rest : Bytes)
      → opens keep b';' body ≡ true
      → (get_or rest 0 0 == b'@') ≡ false
      → strip keep true (b';' ∷ body) ≡ strip keep false rest
      → Scanned keep mid (plain ++ (b';' ∷ body))
      → pre ++ strip keep false (mid ++ (plain ++ rest))
        ≡ pre ++ (mid ++ strip keep false (plain ++ (b';' ∷ body)))
  strip_erased rest h no_at same sc =
      ap (λ t. pre ++ t) (sc (plain ++ rest) (same_head plain rest (b';' ∷ body) no_at))
      ∙ rw
          (
            strip_plain keep plain rest no_comment,
            strip_plain keep plain (b';' ∷ body) no_comment,
            strip_open keep body h,
            same,
          )
          refl

strip-none : (keep : Bool) (r : Bytes) → index_of b';' r ≡ none → strip keep false r ≡ r
unfolding strip
strip-none keep r h =
    ap (strip keep false) (sym (append-nil r))
    ∙ strip_plain keep r [] (index_of-none b';' r h)
    ∙ append-nil r

-- What a round leaves to the next: the searched part, and the rest of the text.
module _ {pre mid r s : Bytes} {p : ℕ} (pl : Place pre mid r s p) where
  after_text : s ≡ (pre ++ ((mid ++ pl.plain) ++ (b';' ∷ []))) ++ pl.body
  after_text = pl.text_is ∙ rw pl.before_is (simp append_assoc)

  after_place : length pl.before + 1 ≡ length (pre ++ ((mid ++ pl.plain) ++ (b';' ∷ [])))
  after_place =
      rw
        (
          pl.before_is,
          ← append_assoc pre (mid ++ pl.plain) (b';' ∷ []),
          ← append_assoc pre mid pl.plain,
        )
        (omega (arith, length-append ((pre ++ mid) ++ pl.plain) (b';' ∷ [])))

  fewer : suc (length pl.body) ≤ length r
  fewer = omega (arith, ap length pl.rest_is, length-append pl.plain (b';' ∷ pl.body))

  scanned : (keep : Bool) → Scanned keep mid r → Scanned keep mid (pl.plain ++ (b';' ∷ pl.body))
  scanned keep sc = subst (λ t. Scanned keep mid t) pl.rest_is sc

  macro_opens : (keep : Bool) → is_macro keep s (length pl.before) ≡ not (opens keep b';' pl.body)
  macro_opens keep = rw pl.text_is (is_macro-opens keep pl.before pl.body)

choose_emptied : (b : Bool) (y t : Bytes) → (b ≡ true → t ≡ []) → y ≡ t → (if b then [] else y) ≡ t
choose_emptied true y t none_left h = sym (none_left refl)
choose_emptied false y t none_left h = h

all_nil : (keep : Bool) (pre x : Bytes) → pre ++ x ≡ [] → pre ++ strip keep false x ≡ []
unfolding strip
all_nil keep [] [] h = refl
all_nil keep [] (c ∷ x) h = cc
all_nil keep (c ∷ pre) x h = cc

measure_falls : (a b c k : ℕ) → a < b → c ≤ a → a < k → a * k + c < b * k
measure_falls a b c k h l m = grind arith

module _ {keep : Bool} {pre mid r s : Bytes} {p : ℕ} (pl : Place pre mid r s p)
    (er : Erased keep pl.before pl.body) where
  erased_raw : erase_comment s (length pl.before) ≡ pl.before ++ er.rest
  erased_raw = ap (λ t. erase_comment t (length pl.before)) pl.text_is ∙ er.erased

  erased_text : erase_comment s (length pl.before) ≡ pre ++ (mid ++ (pl.plain ++ er.rest))
  erased_text = erased_raw ∙ rw pl.before_is (simp append_assoc)

  erased_shorter : length (erase_comment s (length pl.before)) < length s
  erased_shorter = omega (
    arith,
    er.shorter,
    ap length erased_raw,
    ap length pl.text_is,
    length-append pl.before er.rest,
    length-append pl.before (b';' ∷ pl.body),
  )

  erased_part : length (mid ++ (pl.plain ++ er.rest)) ≤ length (erase_comment s (length pl.before))
  erased_part =
      omega (arith, ap length erased_text, length-append pre (mid ++ (pl.plain ++ er.rest)))

pub comment_loop_lem :
    (fuel k : ℕ) (keep : Bool) (pre mid r s : Bytes) (p : ℕ)
    → s ≡ (pre ++ mid) ++ r
    → p ≡ length (pre ++ mid)
    → Scanned keep mid r
    → length s < k
    → length s * k + length r < fuel
    → contents (comment_loop fuel keep (length pre) s p) ≡ pre ++ (mid ++ strip keep false r)
comment_loop_lem zero k keep pre mid r s p es ep sc hk hm = absurd (omega arith)
comment_loop_lem (suc fuel) k keep pre mid r s p es ep sc hk hm =
    elim (Option-cases (index_of b';' r)) [
      | inl h ↦
          round_none fuel keep (length pre) s p (rw (es, ep) (find-none (pre ++ mid) r b';' h))
          ∙ es
          ∙ rw (strip-none keep r h) (append_assoc pre mid r)
      | inr (i, h) ↦
          let pl = place pre mid r s p i es ep h in
          elim (Bool-cases (is_macro keep s (length pl.before))) [
            | inl m ↦
                let shut = not-true _ (sym (macro_opens pl keep) ∙ m) in
                ap contents (round_macro fuel keep (length pre) s p (length pl.before) pl.found m)
                ∙ comment_loop_lem fuel k keep pre ((mid ++ pl.plain) ++ (b';' ∷ [])) pl.body s
                    (length pl.before + 1) (after_text pl) (after_place pl)
                    (Scanned-macro keep (mid ++ pl.plain) pl.body shut (
                      Scanned-plain keep mid pl.plain (b';' ∷ pl.body) pl.no_comment
                        (scanned pl keep sc)))
                    hk (omega (arith, fewer pl))
                ∙ strip_skipped keep pre mid pl.plain pl.body pl.no_comment shut
                ∙ ap (λ t. pre ++ (mid ++ strip keep false t)) (sym pl.rest_is)
            | inr m ↦
                let er = erase keep pl.before pl.body in
                let s' = erase_comment s (length pl.before) in
                let opened = not-false _ (sym (macro_opens pl keep) ∙ m) in
                let rest_cleaned =
                  strip_erased keep pre mid pl.plain pl.body pl.no_comment er.rest opened er.no_at
                    er.same (scanned pl keep sc)
                  ∙ ap (λ t. pre ++ (mid ++ strip keep false t)) (sym pl.rest_is) in
                let short = erased_shorter pl er in
                round_erase fuel keep (length pre) s p (length pl.before) pl.found m
                ∙ choose_emptied _ _ _
                    (λ e.
                      sym rest_cleaned
                      ∙ all_nil keep pre _ (sym (erased_text pl er) ∙ nil_of_empty s' e))
                    (comment_loop_lem fuel k keep pre [] (mid ++ (pl.plain ++ er.rest)) s'
                        (length pre)
                        (erased_text pl er
                          ∙ ap (λ t. t ++ (mid ++ (pl.plain ++ er.rest))) (sym (append-nil pre)))
                        (ap length (sym (append-nil pre)))
                        (Scanned-nil keep (mid ++ (pl.plain ++ er.rest))) (omega arith)
                        (omega (
                          arith,
                          measure_falls (length s') (length s)
                              (length (mid ++ (pl.plain ++ er.rest))) k short (erased_part pl er)
                              (omega arith),
                        ))
                      ∙ rest_cleaned)
          ]
    ]
