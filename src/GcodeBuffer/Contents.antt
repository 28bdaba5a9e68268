-- ===== src/GcodeBuffer/Contents.antt =====
-- What an accepted append adds to the buffer.
use print3d.Prelude.{
  ◌≡◌, refl, ap, sym, ◌∙◌, subst, List, [], ◌∷◌, ◌++◌, arith, leb, length, inl, inr, Bool-cases,
  append_assoc, append-nil,
}
use print3d.Prelude.Text.{Bytes}
use print3d.GcodeBuffer.Clean.{clean}
use print3d.GcodeBuffer.Clean.Whole.{
  whole_lines, IsWhole, IsWhole-IsTidy, IsWhole-append, clean-IsWhole,
}
use print3d.GcodeBuffer.Clean.Agree.{cleanup-append}
use print3d.GcodeBuffer.State.{
  GcodeBuffer, open_back, back, set_back, append_chunk, max_bucket_size,
}

-- The text that the buckets hold, front to back.
abbrev pub joined : List Bytes → Bytes
joined [] = []
joined (b ∷ bs) = b ++ joined bs

abbrev pub AllWhole : List Bytes → Type 0
AllWhole [] = Unit
AllWhole (b ∷ bs) = IsWhole b × AllWhole bs

joined-open_back : (bs : List Bytes) → joined (open_back bs) ≡ joined bs
unfolding open_back
joined-open_back [] = refl
joined-open_back (b ∷ []) = ground arith
joined-open_back (b ∷ c ∷ bs) = ap (λ t. b ++ t) (joined-open_back (c ∷ bs))

pub open_back-AllWhole : (bs : List Bytes) → AllWhole bs → AllWhole (open_back bs)
unfolding open_back whole_lines
open_back-AllWhole [] h = (refl, tt)
open_back-AllWhole (b ∷ []) h = elim (Bool-cases (leb max_bucket_size (length b))) [
  | inl e ↦ rw e (h.0, (refl, tt))
  | inr e ↦ rw e h
]
open_back-AllWhole (b ∷ c ∷ bs) h = (h.0, open_back-AllWhole (c ∷ bs) h.1)

open_back-ne : (bs : List Bytes) → (b : Bytes) × (r : List Bytes) × (open_back bs ≡ b ∷ r)
unfolding open_back
open_back-ne [] = ([], [], refl)
open_back-ne (b ∷ []) = elim (Bool-cases (leb max_bucket_size (length b))) [
  | inl e ↦ (b, [] ∷ [], rw e)
  | inr e ↦ (b, [], rw e)
]
open_back-ne (b ∷ c ∷ bs) = (b, open_back (c ∷ bs), refl)

-- Text added to the last bucket is added at the end.
joined-set_back :
    (b : Bytes) (bs : List Bytes) (x : Bytes)
    → joined (set_back (b ∷ bs) (back (b ∷ bs) ++ x)) ≡ joined (b ∷ bs) ++ x
unfolding set_back back
joined-set_back b [] x = append-nil (b ++ x) ∙ ap (λ t. t ++ x) (sym (append-nil b))
joined-set_back b (c ∷ bs) x = ap (λ t. b ++ t) (joined-set_back c bs x) ∙ sym (append_assoc b _ x)

joined-set_back_ne :
    (l : List Bytes) (b : Bytes) (bs : List Bytes) (x : Bytes)
    → l ≡ b ∷ bs
    → joined (set_back l (back l ++ x)) ≡ joined l ++ x
joined-set_back_ne l b bs x e = rw e (joined-set_back b bs x)

pub back-IsWhole : (bs : List Bytes) → AllWhole bs → IsWhole (back bs)
unfolding back whole_lines
back-IsWhole [] h = refl
back-IsWhole (b ∷ []) h = h.0
back-IsWhole (b ∷ c ∷ bs) h = back-IsWhole (c ∷ bs) h.1

set_back-AllWhole :
    (bs : List Bytes) (s : Bytes) → AllWhole bs → IsWhole s → AllWhole (set_back bs s)
unfolding set_back
set_back-AllWhole [] s h t = h
set_back-AllWhole (b ∷ []) s h t = (t, tt)
set_back-AllWhole (b ∷ c ∷ bs) s h t = (h.0, set_back-AllWhole (c ∷ bs) s h.1 t)

module _ (b : GcodeBuffer) (gcode : Bytes) (lines : AllWhole b.buckets) where
  -- the bucket that a chunk leaves at the back
  chunk_bucket : Bytes
  chunk_bucket = back (open_back b.buckets) ++ clean b.keep_gpx_macro_comments gcode

  append_chunk-buckets :
      (append_chunk b gcode).buckets ≡ set_back (open_back b.buckets) chunk_bucket
  unfolding append_chunk chunk_bucket
  append_chunk-buckets = ap (set_back (open_back b.buckets)) (
      cleanup-append b.keep_gpx_macro_comments (back (open_back b.buckets)) gcode (
        IsWhole-IsTidy (back (open_back b.buckets))
          (back-IsWhole (open_back b.buckets) (open_back-AllWhole b.buckets lines))))

  pub append_chunk-AllWhole : AllWhole (append_chunk b gcode).buckets
  unfolding chunk_bucket
  append_chunk-AllWhole =
      let opened = open_back-AllWhole b.buckets lines in
      subst (λ t. AllWhole t) (sym append_chunk-buckets)
        (set_back-AllWhole _ _ opened (
          IsWhole-append (back (open_back b.buckets)) (clean b.keep_gpx_macro_comments gcode)
            (back-IsWhole (open_back b.buckets) opened)
            (clean-IsWhole b.keep_gpx_macro_comments gcode)))

  pub append_chunk-joined :
      joined (append_chunk b gcode).buckets
      ≡ joined b.buckets ++ clean b.keep_gpx_macro_comments gcode
  unfolding chunk_bucket
  append_chunk-joined =
      let x = clean b.keep_gpx_macro_comments gcode in
      let (c, r, e) = open_back-ne b.buckets in
      ap joined append_chunk-buckets
      ∙ joined-set_back_ne (open_back b.buckets) c r x e
      ∙ ap (λ t. t ++ x) (joined-open_back b.buckets)
