-- ===== src/Prelude/Text.antt =====
-- Bytes, and what the source uses of `std::string` and `<cstring>`: searching, cutting, comparing.
use Prim.Native.Char.{code}
use Prim.Native.String.{String}
use print3d.Prelude.{
  ℕ, suc, ◌+◌, ◌<◌, ◌≡◌, refl, ap, Bool, true, false, ◌&&◌, Option, none, some, List, [], ◌∷◌, ◌++◌,
  arith, ◌==◌, if◌then◌else◌, length, take, drop, subst, inl, inr, Bool-cases, Option-cases,
}

abbrev pub Bytes : Type 0
Bytes = List ℕ

-- Every element is a byte.
abbrev pub IsByteList : Bytes → Type 0
IsByteList [] = Unit
IsByteList (x ∷ xs) = (x < 256) × IsByteList xs

-- The bytes of an ASCII literal.
abbrev pub codes : String → Bytes
codes String.[] = []
codes (String.◌∷◌ c s) = code c ∷ codes s

abbrev pub lf : ℕ
lf = b'\n'

-- The index of the first byte `c`.
unfoldable pub index_of : ℕ → Bytes → Option ℕ
index_of c [] = none
index_of c (x ∷ xs) =
    if x == c then some 0 else elim (index_of c xs) [ none ↦ none | some i ↦ some (suc i) ]

-- `s.find(c, pos)`; `none` is npos, also for a position behind the end.
unfoldable pub find : Bytes → ℕ → ℕ → Option ℕ
unfolding index_of
find s c pos = elim (index_of c (drop pos s)) [ none ↦ none | some i ↦ some (pos + i) ]

unfoldable pub starts_with : Bytes → Bytes → Bool
starts_with [] s = true
starts_with (p ∷ ps) [] = false
starts_with (p ∷ ps) (x ∷ xs) = x == p && starts_with ps xs

-- The index of the first occurrence of the text `p`.
unfoldable pub index_of_text : Bytes → Bytes → Option ℕ
unfolding starts_with
index_of_text p [] = if starts_with p [] then some 0 else none
index_of_text p (x ∷ xs) =
    if starts_with p (x ∷ xs)
    then some 0
    else elim (index_of_text p xs) [ none ↦ none | some i ↦ some (suc i) ]

-- `s.find(p, pos)` of a text.
unfoldable pub find_text : Bytes → Bytes → ℕ → Option ℕ
unfolding index_of_text
find_text s p pos = elim (index_of_text p (drop pos s)) [ none ↦ none | some i ↦ some (pos + i) ]

-- `s.rfind(p)`: the last occurrence.
unfoldable pub rfind_text : Bytes → Bytes → Option ℕ
unfolding starts_with
rfind_text [] p = if starts_with p [] then some 0 else none
rfind_text (x ∷ xs) p = elim (rfind_text xs p) [
  | none ↦ if starts_with p (x ∷ xs) then some 0 else none
  | some i ↦ some (suc i)
]

-- `std::count`.
abbrev pub count : ℕ → Bytes → ℕ
count c [] = 0
count c (x ∷ xs) = (if x == c then 1 else 0) + count c xs

-- The last byte, if there is one (`*s.rbegin()`).
abbrev pub last? : Bytes → Option ℕ
last? [] = none
last? (x ∷ []) = some x
last? (x ∷ y ∷ ys) = last? (y ∷ ys)

-- `==` of two texts.
unfoldable pub bytes_eq : Bytes → Bytes → Bool
bytes_eq [] [] = true
bytes_eq (x ∷ xs) (y ∷ ys) = x == y && bytes_eq xs ys
bytes_eq _ _ = false

pub bytes_eq_refl : (s : Bytes) → bytes_eq s s ≡ true
unfolding bytes_eq
bytes_eq_refl [] = refl
bytes_eq_refl (x ∷ xs) = ground (arith, bytes_eq_refl xs)

pub eq_of_bytes_eq : (s t : Bytes) → bytes_eq s t ≡ true → s ≡ t
unfolding bytes_eq
eq_of_bytes_eq [] [] h = refl
eq_of_bytes_eq (x ∷ xs) (y ∷ ys) h = ground (arith, eq_of_bytes_eq xs ys)
eq_of_bytes_eq [] (y ∷ ys) h = cc
eq_of_bytes_eq (x ∷ xs) [] h = cc

module _ {ℓ} {A : Type ℓ} where
  pub drop-append : (a b : List A) → drop (length a) (a ++ b) ≡ b
  drop-append [] b = refl
  drop-append (x ∷ a) b = drop-append a b

  pub take-append : (a b : List A) → take (length a) (a ++ b) ≡ a
  take-append [] b = refl
  take-append (x ∷ a) b = ap (◌∷◌ x) (take-append a b)

pub count-append : (c : ℕ) (a b : Bytes) → count c (a ++ b) ≡ count c a + count c b
count-append c [] b = omega arith
count-append c (x ∷ a) b = omega (arith, count-append c a b)

pub index_of-none : (c : ℕ) (s : Bytes) → index_of c s ≡ none → count c s ≡ 0
unfolding index_of
index_of-none c [] h = refl
index_of-none c (x ∷ xs) h = ground (arith, index_of-none c xs)

-- Where a byte is found, and what stands before and behind it.
pub record Occurs (c : ℕ) (s : Bytes) (i : ℕ) : Type 0 where
  pub before : Bytes
  pub behind : Bytes
  pub splits : s ≡ before ++ (c ∷ behind)
  pub at_index : i ≡ length before
  pub absent : count c before ≡ 0

Occurs-cons :
    {c x : ℕ} {xs : Bytes} {i : ℕ} → (x == c) ≡ false → Occurs c xs i → Occurs c (x ∷ xs) (suc i)
Occurs-cons {c} {x} ne o = record {
  before = x ∷ o.before;
  behind = o.behind;
  splits = ap (◌∷◌ x) o.splits;
  at_index = ap suc o.at_index;
  absent = rw ne (omega (arith, o.absent));
}

pub index_of-some : (c : ℕ) (s : Bytes) (i : ℕ) → index_of c s ≡ some i → Occurs c s i
unfolding index_of
index_of-some c [] i h = cc
index_of-some c (x ∷ xs) i h = elim (Bool-cases (x == c)) [
  | inl e ↦ record {
    before = [];
    behind = xs;
    splits = ground arith;
    at_index = ground arith;
    absent = refl;
  }
  | inr ne ↦ elim (Option-cases (index_of c xs)) [
    | inl e ↦ absurd (ground arith)
    | inr (j, e) ↦
        let k : suc j ≡ i = ground arith in
        subst (λ n. Occurs c (x ∷ xs) n) k (Occurs-cons ne (index_of-some c xs j e))
  ]
]
