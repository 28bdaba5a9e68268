-- ===== src/GcodeBuffer/Clean/Search.antt =====
-- One search and one erasure of the comment loop of cleanupGCode, on a text cut at the place.
use print3d.Prelude.{
  ℕ, suc, ◌+◌, ◌-◌, ◌≤◌, ◌<◌, ◌≡◌, refl, sym, ap, ◌∙◌, Bool, true, false, not, none, some, [], ◌∷◌,
  ◌++◌, arith, ◌==◌, drop, length, get_or, inl, inr, Option-cases, length-append, append-nil,
  append_assoc,
}
use print3d.Prelude.Text.{
  Bytes, lf, count, find, index_of, index_of-none, index_of-some, drop-append, take-append,
}
use print3d.GcodeBuffer.Cleanup.{is_macro, erase_comment}
use print3d.GcodeBuffer.Clean.{opens}
use print3d.GcodeBuffer.Clean.Passes.{
  strip, strip_plain, strip_inside, strip_at_newline, strip_macro,
}

pub find-none : (w r : Bytes) (c : ℕ) → index_of c r ≡ none → find (w ++ r) c (length w) ≡ none
unfolding find
find-none w r c h = ground (arith, drop-append w r)

pub find-some :
    (w r : Bytes) (c i : ℕ)
    → index_of c r ≡ some i
    → find (w ++ r) c (length w) ≡ some (length w + i)
unfolding find
find-some w r c i h = ground (arith, drop-append w r)

pub get_or-append : (w r : Bytes) (k : ℕ) → get_or (w ++ r) (length w + k) 0 ≡ get_or r k 0
get_or-append [] r k = ap (λ n. get_or r n 0) (omega arith)
get_or-append (x ∷ w) r k =
    let e : suc (length w) + k ≡ suc (length w + k) = omega arith in
    ap (λ n. get_or (x ∷ (w ++ r)) n 0) e ∙ get_or-append w r k

pub is_macro-opens :
    (keep : Bool) (w b : Bytes)
    → is_macro keep (w ++ (b';' ∷ b)) (length w) ≡ not (opens keep b';' b)
is_macro-opens keep w [] = ground (arith, length-append w (b';' ∷ []))
is_macro-opens keep w (x ∷ b) =
    ground (arith, length-append w (b';' ∷ x ∷ b), get_or-append w (b';' ∷ x ∷ b) 1)

-- An erased comment, as what is left behind `w`.
pub record Erased (keep : Bool) (w b : Bytes) : Type 0 where
  pub rest : Bytes
  pub erased : erase_comment (w ++ (b';' ∷ b)) (length w) ≡ w ++ rest
  pub shorter : length rest ≤ length b
  pub no_at : (get_or rest 0 0 == b'@') ≡ false
  pub same : strip keep true (b';' ∷ b) ≡ strip keep false rest

pub Erased-all : (keep : Bool) (w b : Bytes) → index_of lf (b';' ∷ b) ≡ none → Erased keep w b
unfolding erase_comment
Erased-all keep w b h = record {
  rest = [];
  erased = ground (arith, find-none w (b';' ∷ b) lf h, take-append w (b';' ∷ b), append-nil w);
  shorter = omega arith;
  no_at = refl;
  same =
      ap (strip keep true) (sym (append-nil (b';' ∷ b)))
      ∙ strip_inside keep (b';' ∷ b) [] (index_of-none lf (b';' ∷ b) h)
      ∙ (unfold strip in refl);
}

pub front_pos : (a b r : Bytes) → b';' ∷ b ≡ a ++ (lf ∷ r) → 0 < length a
front_pos [] b r h = absurd (ground arith)
front_pos (x ∷ a) b r h = omega arith

pub drop_at :
    (w a r l : Bytes) (e : ℕ)
    → l ≡ a ++ r
    → e ≡ length a
    → drop (length w + (length w + e - length w)) (w ++ l) ≡ r
drop_at w a r l e split at_e =
    let k : length w + (length w + e - length w) ≡ length (w ++ a) =
      omega (arith, length-append w a) in
    rw (k, split, ← append_assoc w a r) (drop-append (w ++ a) r)

pub Erased-line :
    (keep : Bool) (w b : Bytes) (e : ℕ) → index_of lf (b';' ∷ b) ≡ some e → Erased keep w b
unfolding erase_comment
Erased-line keep w b e h =
    let o = index_of-some lf (b';' ∷ b) e h in
    record {
      rest = lf ∷ o.behind;
      erased = ground (
        arith,
        find-some w (b';' ∷ b) lf e h,
        take-append w (b';' ∷ b),
        drop_at w o.before (lf ∷ o.behind) (b';' ∷ b) e o.splits o.at_index,
      );
      shorter = omega (
        arith,
        ap length o.splits,
        length-append o.before (lf ∷ o.behind),
        front_pos o.before b o.behind o.splits,
      );
      no_at = refl;
      same =
          ap (strip keep true) o.splits
          ∙ strip_inside keep o.before _ o.absent
          ∙ strip_at_newline keep o.behind;
    }

pub erase : (keep : Bool) (w b : Bytes) → Erased keep w b
erase keep w b = elim (Option-cases (index_of lf (b';' ∷ b))) [
  | inl h ↦ Erased-all keep w b h
  | inr (e, h) ↦ Erased-line keep w b e h
]

-- `mid` has been searched, and what follows it, `r`, decides nothing more about it.
abbrev pub Scanned : Bool → Bytes → Bytes → Type 0
Scanned keep mid r =
    (x : Bytes)
    → (get_or x 0 0 == b'@') ≡ (get_or r 0 0 == b'@')
    → strip keep false (mid ++ x) ≡ mid ++ strip keep false x

pub Scanned-nil : (keep : Bool) (r : Bytes) → Scanned keep [] r
Scanned-nil keep r x h = refl

pub same_head :
    (a x b : Bytes)
    → (get_or x 0 0 == b'@') ≡ (get_or b 0 0 == b'@')
    → (get_or (a ++ x) 0 0 == b'@') ≡ (get_or (a ++ b) 0 0 == b'@')
same_head [] x b h = h
same_head (y ∷ a) x b h = refl

-- A text with no comment opener of its own may be added to what has been searched.
pub Scanned-plain :
    (keep : Bool) (mid a r : Bytes)
    → count b';' a ≡ 0
    → Scanned keep mid (a ++ r)
    → Scanned keep (mid ++ a) r
Scanned-plain keep mid a r h s x e =
    ap (strip keep false) (append_assoc mid a x)
    ∙ s (a ++ x) (same_head a x r e)
    ∙ ap (λ t. mid ++ t) (strip_plain keep a x h)
    ∙ sym (append_assoc mid a (strip keep false x))

pub Scanned-macro :
    (keep : Bool) (mid b : Bytes)
    → opens keep b';' b ≡ false
    → Scanned keep mid (b';' ∷ b)
    → Scanned keep (mid ++ (b';' ∷ [])) b
Scanned-macro keep mid b h s x e =
    ap (strip keep false) (append_assoc mid (b';' ∷ []) x)
    ∙ s (b';' ∷ x) refl
    ∙ ap (λ t. mid ++ t) (strip_macro keep x (rw e h))
    ∙ sym (append_assoc mid (b';' ∷ []) (strip keep false x))
