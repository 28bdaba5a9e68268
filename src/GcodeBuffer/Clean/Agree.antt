-- ===== src/GcodeBuffer/Clean/Agree.antt =====
-- cleanupGCode agrees with the reference on every bucket that it meets.
use print3d.Prelude.{
  ℕ, zero, suc, ◌-◌, none, ◌+◌, ◌*◌, ◌≤◌, ◌<◌, ◌≡◌, refl, sym, ap, ◌∙◌, Bool, true, false, [], ◌∷◌,
  ◌++◌, arith, length, map, length-append, append-nil,
}
use print3d.Prelude.Text.{Bytes, lf, find_text, drop-append, take-append}
use print3d.GcodeBuffer.Cleanup.{
  Scan, kept, emptied, to_lf, replace_cr, comment_fuel, scan_comments, tidy_newlines,
  after_comments, cleanup, double_newline_loop,
}
use print3d.GcodeBuffer.Clean.{clean}
use print3d.GcodeBuffer.Clean.Passes.{strip}
use print3d.GcodeBuffer.Clean.Search.{Scanned-nil}
use print3d.GcodeBuffer.Clean.Loops.{contents, comment_loop_lem}
use print3d.GcodeBuffer.Clean.Newlines.{IsTidy, tidy_newlines-append, passes-clean_from}

replace_cr-append : (pre s : Bytes) → replace_cr (length pre) (pre ++ s) ≡ pre ++ map to_lf s
unfolding replace_cr
replace_cr-append pre s = rw (take-append, drop-append)

fuel_enough : (a b : ℕ) → b ≤ a → a * (a + 1) + b < (a + 1) * (a + 1)
fuel_enough a b h = grind arith

scan_comments-append :
    (keep : Bool) (pre s : Bytes)
    → contents (scan_comments keep (length pre) (pre ++ s)) ≡ pre ++ strip keep false (map to_lf s)
unfolding scan_comments
scan_comments-append keep pre s =
    let r = map to_lf s in
    let t = pre ++ r in
    rw (replace_cr-append pre s) (
      comment_loop_lem (comment_fuel t) (length t + 1) keep pre [] r t (length pre)
        (ap (λ u. u ++ r) (sym (append-nil pre))) (ap length (sym (append-nil pre)))
        (Scanned-nil keep r) (omega arith)
        (fuel_enough (length t) (length r) (omega (arith, length-append pre r))))

find_text-nil : (p : Bytes) (n : ℕ) → find_text [] (lf ∷ p) n ≡ none
unfolding find_text
find_text-nil p zero = refl
find_text-nil p (suc n) = refl

tidy_newlines-nil : (pos : ℕ) → tidy_newlines pos [] ≡ []
unfolding tidy_newlines
tidy_newlines-nil pos = rw (find_text-nil (lf ∷ []) (pos - 1), double_newline_loop)

-- What the rest of the function makes of an emptied buffer and of a kept one.
after_comments-contents :
    (pos : ℕ) (s : Scan) → after_comments pos s ≡ tidy_newlines pos (contents s)
unfolding after_comments
after_comments-contents pos (kept t) = refl
after_comments-contents pos emptied = sym (tidy_newlines-nil pos)

-- The function cleanupGCode, called for what was appended at `pos` to a bucket that it left
-- itself, keeps the bucket and adds the reference's clean text.
pub cleanup-append :
    (keep : Bool) (pre s : Bytes)
    → IsTidy pre
    → cleanup keep (length pre) (pre ++ s) ≡ pre ++ clean keep s
unfolding clean cleanup
cleanup-append keep pre s tidy =
    after_comments-contents (length pre) (scan_comments keep (length pre) (pre ++ s))
    ∙ ap (tidy_newlines (length pre)) (scan_comments-append keep pre s)
    ∙ tidy_newlines-append pre (strip keep false (map to_lf s)) tidy
    ∙ ap (λ t. pre ++ t) (passes-clean_from keep false true s)
