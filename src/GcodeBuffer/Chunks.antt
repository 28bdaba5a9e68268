-- ===== src/GcodeBuffer/Chunks.antt =====
-- The loop of append over chunks: where it cuts, and what all chunks add.
use print3d.Prelude.{
  ℕ, zero, suc, ◌+◌, ◌-◌, ◌≤◌, ◌<◌, ◌≡◌, refl, ap, sym, ◌∙◌, subst, Bool, Option, none, some, List,
  [], ◌∷◌, ◌++◌, arith, ltb, length, take, drop, inl, inr, Bool-cases, Option-cases, append_assoc,
  append-nil, length-append, length-take, length-drop, take-append-drop,
}
use print3d.Prelude.Text.{Bytes, lf, index_of, index_of-some, drop-append, take-append}
use print3d.Prelude.Int.{ℤ}
use print3d.GcodeBuffer.Clean.{clean}
use print3d.GcodeBuffer.Clean.Shape.{clean-append}
use print3d.GcodeBuffer.State.{
  GcodeBuffer, MetaData, GcodeSetResult, ok, append_chunk, buffer_split_size,
}
use print3d.GcodeBuffer.Contents.{joined, AllWhole, append_chunk-AllWhole, append_chunk-joined}
use print3d.GcodeBuffer.Append.{
  sanity, append_checked, chunk_length, append_loop, housekeeping, append,
}

-- A chunk is all that is left, or it ends at a newline.
data Cut (d : Bytes) (len : ℕ) : Type 0 where
  whole : len ≡ length d → Cut d len
  line : (a r : Bytes) → d ≡ (a ++ (lf ∷ [])) ++ r → len ≡ length (a ++ (lf ∷ [])) → Cut d len

clean-nil : (keep : Bool) → clean keep [] ≡ []
unfolding clean
clean-nil keep = refl

take_all : (d : Bytes) → take (length d) d ≡ d
take_all d = rw (append-nil d) at (take-append d [])

drop_all : (d : Bytes) → drop (length d) d ≡ []
drop_all d = rw (append-nil d) at (drop-append d [])

-- Cleaning the chunk and the rest by themselves cleans the text.
clean-Cut :
    (keep : Bool) (d : Bytes) (len : ℕ)
    → Cut d len
    → clean keep (take len d) ++ clean keep (drop len d) ≡ clean keep d
clean-Cut keep d len (whole e) =
    rw (e, take_all d, drop_all d, clean-nil keep) (append-nil (clean keep d))
clean-Cut keep d len (line a r s e) =
    rw (e, s, take-append (a ++ (lf ∷ [])) r, drop-append (a ++ (lf ∷ [])) r)
      (sym (clean-append keep a r))

Cut-at : (k : ℕ) (d : Bytes) (i : ℕ) → index_of lf (drop k d) ≡ some i → Cut d (k + i + 1)
Cut-at k d i h =
    let o = index_of-some lf (drop k d) i h in
    line (take k d ++ o.before) o.behind
      (sym (take-append-drop k d) ∙ ap (λ t. take k d ++ t) o.splits ∙ simp append_assoc)
      (omega (
        arith,
        o.at_index,
        ap length o.splits,
        length-append o.before (lf ∷ o.behind),
        length-drop k d,
        length-take k d,
        length-append (take k d ++ o.before) (lf ∷ []),
        length-append (take k d) o.before,
      ))

drop-nil : (n : ℕ) → drop {A = ℕ} n [] ≡ []
drop-nil zero = refl
drop-nil (suc n) = refl

drop-drop : (m n : ℕ) (s : Bytes) → drop (m + n) s ≡ drop n (drop m s)
drop-drop zero n s = ap (λ k. drop k s) (omega arith)
drop-drop (suc m) n [] = drop-nil (suc m + n) ∙ sym (drop-nil n)
drop-drop (suc m) n (x ∷ s) =
    let e : suc m + n ≡ suc (m + n) = omega arith in ap (λ k. drop k (x ∷ s)) e ∙ drop-drop m n s

chunk_length-none :
    (gcode : Bytes) (start : ℕ)
    → index_of lf (drop (start + buffer_split_size) gcode) ≡ none
    → chunk_length gcode start ≡ length gcode - start
unfolding chunk_length
chunk_length-none gcode start e = ground arith

chunk_length-some :
    (gcode : Bytes) (start i : ℕ)
    → index_of lf (drop (start + buffer_split_size) gcode) ≡ some i
    → chunk_length gcode start ≡ buffer_split_size + i + 1
unfolding chunk_length
chunk_length-some gcode start i e = ground arith

chunk_length-Cut : (gcode : Bytes) (start : ℕ) → Cut (drop start gcode) (chunk_length gcode start)
chunk_length-Cut gcode start =
    elim (Option-cases (index_of lf (drop (start + buffer_split_size) gcode))) [
      | inl e ↦ whole (chunk_length-none gcode start e ∙ sym (length-drop start gcode))
      | inr (i, e) ↦
          subst (λ n. Cut (drop start gcode) n) (sym (chunk_length-some gcode start i e))
            (Cut-at buffer_split_size (drop start gcode) i
              (ap (index_of lf) (sym (drop-drop start buffer_split_size gcode)) ∙ e))
    ]

Cut-pos : (d : Bytes) (len : ℕ) → Cut d len → 0 < length d → 0 < len
Cut-pos d len (whole e) h = omega arith
Cut-pos d len (line a r s e) h = omega (arith, length-append a (lf ∷ []))

-- What the loop adds from `start` on: the clean text, in whole lines.
pub record Adds (bs : List Bytes) (x : Bytes) (b' : GcodeBuffer) : Type 0 where
  pub joins : joined b'.buckets ≡ joined bs ++ x
  pub whole_after : AllWhole b'.buckets

nil_of_length : (s : Bytes) → length s ≡ 0 → s ≡ []
nil_of_length [] h = refl
nil_of_length (x ∷ s) h = absurd (omega arith)

Adds-none :
    (b : GcodeBuffer) (gcode : Bytes) (start : ℕ)
    → AllWhole b.buckets
    → length gcode ≤ start
    → Adds b.buckets (clean b.keep_gpx_macro_comments (drop start gcode)) b
Adds-none b gcode start t h = record {
  joins =
      let e = nil_of_length (drop start gcode) (omega (arith, length-drop start gcode)) in
      rw (e, clean-nil b.keep_gpx_macro_comments) (sym (append-nil (joined b.buckets)));
  whole_after = t;
}

keep-append_chunk :
    (b : GcodeBuffer) (s : Bytes)
    → (append_chunk b s).keep_gpx_macro_comments ≡ b.keep_gpx_macro_comments
unfolding append_chunk
keep-append_chunk b s = refl

append_loop-Adds :
    (fuel : ℕ) (b : GcodeBuffer) (gcode : Bytes) (start : ℕ)
    → AllWhole b.buckets
    → length gcode ≤ start + fuel
    → Adds b.buckets
        (clean b.keep_gpx_macro_comments (drop start gcode))
        (append_loop fuel b gcode start)
unfolding append_loop
append_loop-Adds zero b gcode start t h = Adds-none b gcode start t (omega arith)
append_loop-Adds (suc fuel) b gcode start t h = elim (Bool-cases (ltb start (length gcode))) [
  | inr e ↦ rw e (Adds-none b gcode start t (ground arith))
  | inl e ↦
      let keep = b.keep_gpx_macro_comments in
      let d = drop start gcode in
      let len = chunk_length gcode start in
      let cut = chunk_length-Cut gcode start in
      let c = append_chunk b (take len d) in
      let more = Cut-pos d len cut (ground (arith, length-drop start gcode)) in
      let rest =
        append_loop-Adds fuel c gcode (start + len) (append_chunk-AllWhole b (take len d) t)
          (omega arith) in
      rw e (record {
        joins =
            rest.joins
            ∙ ap (λ k. joined c.buckets ++ clean k (drop (start + len) gcode))
                (keep-append_chunk b (take len d))
            ∙ ap (λ u. u ++ clean keep (drop (start + len) gcode))
                (append_chunk-joined b (take len d) t)
            ∙ append_assoc (joined b.buckets) (clean keep (take len d))
                (clean keep (drop (start + len) gcode))
            ∙ ap (λ u. joined b.buckets ++ (clean keep (take len d) ++ clean keep u))
                (drop-drop start len gcode)
            ∙ ap (λ u. joined b.buckets ++ u) (clean-Cut keep d len cut);
        whole_after = rest.whole_after;
      })
]

append_checked-accepted :
    (checked : GcodeSetResult) (b : GcodeBuffer) (gcode : Bytes) (total_lines : ℤ)
    (m : Option MetaData) (b' : GcodeBuffer)
    → append_checked checked b gcode total_lines m ≡ some (b', ok)
    → b' ≡ append_loop (length gcode) (housekeeping b total_lines m) gcode 0
unfolding append_checked
append_checked-accepted ok b gcode total_lines m b' h = ground arith
append_checked-accepted _ b gcode total_lines m b' h = absurd (ground arith)

-- An accepted append adds exactly the clean text of its gcode at the end of the buffer, whatever
-- chunks and buckets it passes through, and keeps the buckets whole.
pub append-Adds :
    (b : GcodeBuffer) (gcode : Bytes) (total_lines : ℤ) (m : Option MetaData) (b' : GcodeBuffer)
    → AllWhole b.buckets
    → append b gcode total_lines m ≡ some (b', ok)
    → Adds b.buckets (clean b.keep_gpx_macro_comments gcode) b'
unfolding append
append-Adds b gcode total_lines m b' t h =
    let c = housekeeping b total_lines m in
    subst (λ x. Adds b.buckets (clean b.keep_gpx_macro_comments gcode) x)
      (sym (append_checked-accepted (sanity b m) b gcode total_lines m b' h))
      (append_loop-Adds (length gcode) c gcode 0 t (omega arith))
