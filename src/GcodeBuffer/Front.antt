-- ===== src/GcodeBuffer/Front.antt =====
-- The line at the front of the buffer: what getNextLine shows is what eraseLine removes.
use print3d.Prelude.{
  ℕ, suc, ◌+◌, ◌≡◌, ◌≢◌, refl, ap, sym, ◌∙◌, subst, false, Option, some, List, [], ◌∷◌, ◌++◌, arith,
  ◌==◌, if◌then◌else◌, length, drop, inl, inr, Option-cases, append_assoc,
}
use print3d.Prelude.Text.{
  Bytes, lf, count, count-append, find, index_of, index_of-none, index_of-some, take-append,
}
use print3d.Prelude.Int.{ℤ, pos, ◌-ℤ◌, ◌≤ℤ◌}
use print3d.GcodeBuffer.Clean.Newlines.{IsTidy}
use print3d.GcodeBuffer.Clean.Whole.{IsWhole, IsWhole-IsTidy, IsWhole-behind}
use print3d.GcodeBuffer.State.{GcodeBuffer}
use print3d.GcodeBuffer.Contents.{joined, AllWhole}
use print3d.GcodeBuffer.Lines.{
  before_place, from_place, get_next_line, seek_next, seek_erase, erase_line,
}
use print3d.GcodeBuffer.Counts.{IsValid}

pos_pred : (n : ℕ) → (pos (1 + n) -ℤ pos 1) ≡ pos n
unfolding ◌-ℤ◌
pos_pred n = ground arith

pred_≤ℤ : (a b : ℤ) → a ≤ℤ b → (a -ℤ pos 1) ≤ℤ b
unfolding ◌-ℤ◌
pred_≤ℤ a b h = ground arith

tidy_count : (s : Bytes) → IsTidy s → s ≢ [] → count lf s ≢ 0
tidy_count s (inl e) ne = absurd (ne e)
tidy_count s (inr (f, e, h)) ne = rw (e, count-append lf f (lf ∷ [])) (omega arith)

-- A bucket that is not empty begins with an ended line.
front_line : (s : Bytes) → IsWhole s → s ≢ [] → (i : ℕ) × (index_of lf s ≡ some i)
front_line s h ne = elim (Option-cases (index_of lf s)) [
  | inr o ↦ o
  | inl e ↦ absurd (tidy_count s (IsWhole-IsTidy s h) ne (index_of-none lf s e))
]

module _ (before behind : Bytes) where
  line_text : Bytes
  line_text = before ++ (lf ∷ behind)

  module _ (found : index_of lf line_text ≡ some (length before)) where
    find_line : find line_text lf 0 ≡ some (length before)
    unfolding find line_text
    find_line = ground (arith, found)

    seek_next-one : seek_next line_text 1 ≡ (some (length before), 1)
    unfolding seek_next
    seek_next-one = rw find_line refl

    seek_erase-one : seek_erase line_text 1 ≡ (some (length before), 1)
    unfolding seek_erase
    seek_erase-one = rw find_line refl

drop-suc_line :
    (before behind : Bytes) → drop (suc (length before)) (before ++ (lf ∷ behind)) ≡ behind
drop-suc_line [] behind = refl
drop-suc_line (x ∷ before) behind = drop-suc_line before behind

pub drop-line :
    (before behind : Bytes) → drop (length before + 1) (before ++ (lf ∷ behind)) ≡ behind
drop-line before behind =
    let e : length before + 1 ≡ suc (length before) = omega arith in
    ap (λ n. drop n (before ++ (lf ∷ behind))) e ∙ drop-suc_line before behind

unfoldable rest_buckets : Bytes → List Bytes → List Bytes
rest_buckets behind bs = if length behind == 0 then bs else behind ∷ bs

joined-rest :
    (behind : Bytes) (bs : List Bytes) → joined (rest_buckets behind bs) ≡ behind ++ joined bs
unfolding rest_buckets
joined-rest [] bs = refl
joined-rest (x ∷ behind) bs = let e : (length (x ∷ behind) == 0) ≡ false = ground arith in rw e refl

rest-AllWhole :
    (behind : Bytes) (bs : List Bytes)
    → IsWhole behind
    → AllWhole bs
    → AllWhole (rest_buckets behind bs)
unfolding rest_buckets
rest-AllWhole [] bs h t = t
rest-AllWhole (x ∷ behind) bs h t =
    let e : (length (x ∷ behind) == 0) ≡ false = ground arith in rw e (h, t)

-- What getNextLine shows is what eraseLine removes: the first line, without its newline, and
-- nothing else. The buffer stays valid.
pub record TakesLine (b : GcodeBuffer) : Type 0 where
  pub one_shown : (get_next_line b 1).0 ≡ 1
  pub one_erased : (erase_line b 1).1 ≡ 1
  pub one_line : count lf (get_next_line b 1).1 ≡ 0
  pub first : joined b.buckets ≡ (get_next_line b 1).1 ++ (lf ∷ joined (erase_line b 1).0.buckets)
  pub stays_valid : IsValid (erase_line b 1).0

module _ (b : GcodeBuffer) (s : Bytes) (bs : List Bytes) (front : b.buckets ≡ s ∷ bs) where
  get_next_line-cons : get_next_line b 1 ≡ ((seek_next s 1).1, before_place s (seek_next s 1).0)
  unfolding get_next_line
  get_next_line-cons = rw front refl

  erase_line-cons_count : (erase_line b 1).1 ≡ (seek_erase s 1).1
  unfolding erase_line
  erase_line-cons_count = rw front refl

  erase_line-cons_buckets :
      (erase_line b 1).0.buckets ≡ rest_buckets (from_place s (seek_erase s 1).0) bs
  unfolding erase_line rest_buckets
  erase_line-cons_buckets = rw front refl

  erase_line-cons_buffered :
      (erase_line b 1).0.buffered_lines ≡ b.buffered_lines -ℤ pos (seek_erase s 1).1
  unfolding erase_line
  erase_line-cons_buffered = rw front refl

module _ (b : GcodeBuffer) (before behind : Bytes) (bs : List Bytes) where
  module _ (front : b.buckets ≡ line_text before behind ∷ bs)
      (found : index_of lf (line_text before behind) ≡ some (length before)) where
    get_next_line-front : get_next_line b 1 ≡ (1, before)
    unfolding get_next_line line_text
    get_next_line-front =
        get_next_line-cons b (line_text before behind) bs front
        ∙ ap (λ (k : Option ℕ × ℕ). (k.1, before_place (line_text before behind) k.0))
            (seek_next-one before behind found)
        ∙ ap (λ (t : Bytes). (1, t)) (take-append before (lf ∷ behind))

    erase_line-count : (erase_line b 1).1 ≡ 1
    erase_line-count =
        erase_line-cons_count b (line_text before behind) bs front
        ∙ ap (λ (k : Option ℕ × ℕ). k.1) (seek_erase-one before behind found)

    erase_line-buckets : (erase_line b 1).0.buckets ≡ rest_buckets behind bs
    unfolding line_text
    erase_line-buckets =
        erase_line-cons_buckets b (line_text before behind) bs front
        ∙ ap (λ (k : Option ℕ × ℕ). rest_buckets (from_place (line_text before behind) k.0) bs)
            (seek_erase-one before behind found)
        ∙ ap (λ t. rest_buckets t bs) (drop-line before behind)

    erase_line-buffered : (erase_line b 1).0.buffered_lines ≡ b.buffered_lines -ℤ pos 1
    erase_line-buffered =
        erase_line-cons_buffered b (line_text before behind) bs front
        ∙ ap (λ (k : Option ℕ × ℕ). b.buffered_lines -ℤ pos k.1)
            (seek_erase-one before behind found)

    erase_line-sent : (erase_line b 1).0.total_lines_sent ≡ b.total_lines_sent
    unfolding erase_line
    erase_line-sent = rw front refl

    erase_line-current : (erase_line b 1).0.current_line ≡ b.current_line
    unfolding erase_line
    erase_line-current = rw front refl

    joined-front : joined b.buckets ≡ before ++ (lf ∷ (behind ++ joined bs))
    unfolding line_text
    joined-front = rw front (append_assoc before (lf ∷ behind) (joined bs))

    module _ (absent : count lf before ≡ 0) (v : IsValid b) where
      count-front : count lf (joined b.buckets) ≡ 1 + count lf (joined (rest_buckets behind bs))
      count-front =
          rw
            (
              joined-front,
              joined-rest behind bs,
              count-append lf before (lf ∷ (behind ++ joined bs)),
              absent,
            )
            (omega arith)

      front-AllWhole : AllWhole (rest_buckets behind bs)
      unfolding line_text
      front-AllWhole =
          let w = subst (λ t. AllWhole t) front v.whole in
          rest-AllWhole behind bs (IsWhole-behind before behind w.0) w.1

      erase_line-IsValid : IsValid (erase_line b 1).0
      erase_line-IsValid = record {
        whole = subst (λ t. AllWhole t) (sym erase_line-buckets) front-AllWhole;
        counted =
            erase_line-buffered
            ∙ ap (λ n. n -ℤ pos 1) (v.counted ∙ ap pos count-front)
            ∙ pos_pred (count lf (joined (rest_buckets behind bs)))
            ∙ ap (λ t. pos (count lf (joined t))) (sym erase_line-buckets);
        sent =
            rw (erase_line-buffered, erase_line-sent)
              (pred_≤ℤ b.buffered_lines b.total_lines_sent v.sent);
        current = rw (erase_line-current, erase_line-sent) v.current;
      }

      front-TakesLine : TakesLine b
      front-TakesLine = record {
        one_shown = ap (λ p. p.0) get_next_line-front;
        one_erased = erase_line-count;
        one_line = rw (get_next_line-front) absent;
        first = rw (get_next_line-front, erase_line-buckets, joined-rest behind bs) joined-front;
        stays_valid = erase_line-IsValid;
      }

-- A valid buffer that is not empty gives up its first line: it is shown and then erased whole.
pub erase_line-TakesLine :
    (b : GcodeBuffer) (s : Bytes) (bs : List Bytes)
    → IsValid b
    → b.buckets ≡ s ∷ bs
    → s ≢ []
    → TakesLine b
unfolding line_text
erase_line-TakesLine b s bs v e ne =
    let whole = subst (λ t. AllWhole t) e v.whole in
    let (i, found) = front_line s whole.0 ne in
    let o = index_of-some lf s i found in
    let split = o.splits in
    front-TakesLine b o.before o.behind bs (e ∙ ap (λ t. t ∷ bs) split)
      (ap (index_of lf) (sym split) ∙ found ∙ ap some o.at_index) o.absent v
