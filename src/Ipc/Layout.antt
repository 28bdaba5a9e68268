-- ===== src/Ipc/Layout.antt =====
-- The layout of a command: its code, the number of its arguments, and each argument behind its
-- length. This is the description that the operations on commands are held against.
use print3d.Prelude.{
  ℕ, zero, suc, ◌+◌, ◌^◌, ◌<◌, ◌≡◌, refl, ap, sym, ◌∙◌, List, [], ◌∷◌, ◌++◌, arith, length, drop,
}
use print3d.Prelude.Text.{Bytes}
use print3d.Ipc.Wire.{store_ns, store_nl}

unfoldable pub encode_arg : Bytes → Bytes
encode_arg a = store_nl (length a) ++ a

unfoldable pub encode_args : List Bytes → Bytes
encode_args [] = []
encode_args (a ∷ args) = encode_arg a ++ encode_args args

unfoldable pub encode : ℕ → List Bytes → Bytes
encode code args = store_ns code ++ (store_ns (length args) ++ encode_args args)

-- Every argument's length fits its field.
abbrev pub AllFit : List Bytes → Type 0
AllFit [] = Unit
AllFit (a ∷ args) = (length a < 2 ^ 32) × AllFit args

pub length-encode_arg : (a : Bytes) → length (encode_arg a) ≡ 4 + length a
unfolding encode_arg store_nl
length-encode_arg a = omega arith

drop-nil : (n : ℕ) → drop {A = ℕ} n [] ≡ []
drop-nil zero = refl
drop-nil (suc n) = refl

pub drop-drop : (m n : ℕ) (s : Bytes) → drop (m + n) s ≡ drop n (drop m s)
drop-drop zero n s = let e : 0 + n ≡ n = omega arith in ap (λ k. drop k s) e
drop-drop (suc m) n [] = drop-nil (suc m + n) ∙ sym (drop-nil n)
drop-drop (suc m) n (x ∷ s) =
    let e : suc m + n ≡ suc (m + n) = omega arith in ap (λ k. drop k (x ∷ s)) e ∙ drop-drop m n s

pub drop-behind : (n : ℕ) (a r : Bytes) → length a ≡ n → drop n (a ++ r) ≡ r
drop-behind zero [] r h = refl
drop-behind zero (x ∷ a) r h = absurd (omega arith)
drop-behind (suc n) [] r h = absurd (omega arith)
drop-behind (suc n) (x ∷ a) r h = drop-behind n a r (omega arith)
