-- ===== src/Ipc/Arguments.antt =====
-- Reading the arguments of a command in its layout.
use print3d.Prelude.{
  ℕ, zero, suc, ◌+◌, ◌^◌, ◌<◌, ◌≡◌, refl, ap, sym, ◌∙◌, Bool, true, false, Option, none, some, List,
  [], ◌∷◌, ◌++◌, arith, ltb, leb, if◌then◌else◌, length, take, drop, get_elem?, append_assoc,
  length-append, inl, inr, Option-cases,
}
use print3d.Prelude.Int.{ℤ}
use print3d.Prelude.Text.{Bytes, take-append}
use print3d.Ipc.Wire.{
  read_ns, read_nl, store_ns, store_nl, read_ns-store_ns, read_nl-store_nl, IsInt16, IsInt32,
  to_uint16, to_uint32, to_uint16-lt, to_uint32-lt, to_int16, to_int32, to_int16-to_uint16,
  to_int32-to_uint32,
}
use print3d.Ipc.Layout.{encode_arg, encode_args, encode, AllFit, length-encode_arg}
use print3d.Ipc.Command.{
  Access, found, no_arg, seek_arg, take_arg, at_arg, cmd_get_arg, as_short, as_long,
  cmd_get_short_arg, cmd_get_long_arg, short, long, arg_bytes,
}
use print3d.Ipc.RoundTrip.{read_nl-encode_arg, drop-encode_arg, drop-encode_head, count_field}

-- The argument at an index, ended by a zero byte where that is asked for.
abbrev pub terminated : Bool → Bytes → Bytes
terminated addzero a = a ++ (if addzero then 0 ∷ [] else [])

abbrev pub argument : Bool → Option Bytes → Access Bytes
argument addzero none = no_arg
argument addzero (some a) = found (terminated addzero a)

take-encode_arg : (a r : Bytes) → take (length a) (drop 4 (encode_arg a ++ r)) ≡ a
unfolding encode_arg store_nl
take-encode_arg a r = take-append a r

module _ (p a : Bytes) (read : read_nl p ≡ some (length a)) where
  take_arg-found :
      (addzero : Bool)
      → ltb (length p) (4 + length a) ≡ false
      → take (length a) (drop 4 p) ≡ a
      → take_arg p addzero ≡ found (terminated addzero a)
  unfolding take_arg
  take_arg-found addzero e t = rw (read, e, t, take_arg) refl

  seek_arg-suc : (i : ℕ) → seek_arg (suc i) p ≡ seek_arg i (drop (4 + length a) p)
  unfolding seek_arg
  seek_arg-suc i = rw (read, seek_arg) refl

take_arg-encode_arg :
    (a r : Bytes) (addzero : Bool)
    → length a < 2 ^ 32
    → take_arg (encode_arg a ++ r) addzero ≡ found (terminated addzero a)
take_arg-encode_arg a r addzero h =
    let size = length-append (encode_arg a) r in
    let head = length-encode_arg a in
    let e : ltb (length (encode_arg a ++ r)) (4 + length a) ≡ false = ground arith in
    take_arg-found (encode_arg a ++ r) a (read_nl-encode_arg a r h) addzero e (take-encode_arg a r)

-- The place that seek_arg finds is that of the argument.
seek_arg-encode_args :
    (args : List Bytes) (i : ℕ) (a r : Bytes)
    → AllFit args
    → get_elem? args i ≡ some a
    → (r' : Bytes) × (seek_arg i (encode_args args ++ r) ≡ some (encode_arg a ++ r'))
      × (length a < 2 ^ 32)
unfolding seek_arg encode_args
seek_arg-encode_args [] i a r h e = cc
seek_arg-encode_args (b ∷ args) zero a r h e =
    let k : b ≡ a = ground arith in
    (
      encode_args args ++ r,
      ap some (
          append_assoc (encode_arg b) (encode_args args) r
          ∙ ap (λ t. encode_arg t ++ (encode_args args ++ r)) k),
      rw (sym k) h.0,
    )
seek_arg-encode_args (b ∷ args) (suc i) a r h e =
    let (r', p, s) = seek_arg-encode_args args i a r h.1 e in
    let split = append_assoc (encode_arg b) (encode_args args) r in
    let behind = encode_args args ++ r in
    let step = seek_arg-suc (encode_arg b ++ behind) b (read_nl-encode_arg b behind h.0) i in
    (r', ap (seek_arg (suc i)) split ∙ step ∙ ap (seek_arg i) (drop-encode_arg b behind) ∙ p, s)

get_elem?-none : (args : List Bytes) (i : ℕ) → get_elem? args i ≡ none → leb (length args) i ≡ true
get_elem?-none [] i e = ground arith
get_elem?-none (a ∷ args) zero e = cc
get_elem?-none (a ∷ args) (suc i) e = let h = get_elem?-none args i e in ground arith

get_elem?-some :
    (args : List Bytes) (i : ℕ) (a : Bytes)
    → get_elem? args i ≡ some a
    → leb (length args) i ≡ false
get_elem?-some [] i a e = cc
get_elem?-some (b ∷ args) zero a e = ground arith
get_elem?-some (b ∷ args) (suc i) a e = let h = get_elem?-some args i a e in ground arith

module _ {ℓ} {B : Type ℓ} (buf : Bytes) (n i : ℕ) (bad wild : B) (f : Bytes → B) where
  module _ (read : read_ns (drop 2 buf) ≡ some n) where
    at_arg-bad : leb n i ≡ true → at_arg buf i bad wild f ≡ bad
    unfolding at_arg
    at_arg-bad e = rw (read, e, at_arg) refl

    at_arg-good :
        (p : Bytes)
        → leb n i ≡ false
        → seek_arg i (drop 4 buf) ≡ some p
        → at_arg buf i bad wild f ≡ f p
    unfolding at_arg
    at_arg-good p e k = rw (read, e, k, at_arg) refl

as_short-found : (a : Bytes) (v : ℕ) → read_ns a ≡ some v → as_short (found a) ≡ found (to_int16 v)
unfolding as_short
as_short-found a v e = rw (e, as_short) refl

as_long-found : (a : Bytes) (v : ℕ) → read_nl a ≡ some v → as_long (found a) ≡ found (to_int32 v)
unfolding as_long
as_long-found a v e = rw (e, as_long) refl

module _ (code : ℕ) (args : List Bytes) (r : Bytes) (count : length args < 2 ^ 16) where
  module _ {ℓ} {B : Type ℓ} (i : ℕ) (bad wild : B) (f : Bytes → B) where
    at_arg-none : get_elem? args i ≡ none → at_arg (encode code args ++ r) i bad wild f ≡ bad
    at_arg-none e =
        at_arg-bad (encode code args ++ r) (length args) i bad wild f
          (count_field code args r count) (get_elem?-none args i e)

    at_arg-some :
        (a p : Bytes)
        → get_elem? args i ≡ some a
        → seek_arg i (encode_args args ++ r) ≡ some p
        → at_arg (encode code args ++ r) i bad wild f ≡ f p
    at_arg-some a p e k =
        at_arg-good (encode code args ++ r) (length args) i bad wild f
          (count_field code args r count) p (get_elem?-some args i a e)
          (ap (seek_arg i) (drop-encode_head code args r) ∙ k)

  module _ (fit : AllFit args) where
    -- get_arg answers the argument at the index, and -2 for an index that has none.
    pub cmd_get_arg-encode :
        (i : ℕ) (addzero : Bool)
        → cmd_get_arg (encode code args ++ r) i addzero ≡ argument addzero (get_elem? args i)
    unfolding cmd_get_arg
    cmd_get_arg-encode i addzero = elim (Option-cases (get_elem? args i)) [
      | inl e ↦ rw e (at_arg-none i _ _ _ e)
      | inr (a, e) ↦
          let (r', p, s) = seek_arg-encode_args args i a r fit e in
          rw e (at_arg-some i _ _ _ a (encode_arg a ++ r') e p ∙ take_arg-encode_arg a r' addzero s)
    ]

    pub short_arg-encode :
        (i : ℕ) (v : ℤ)
        → get_elem? args i ≡ some (arg_bytes (short v))
        → IsInt16 v
        → cmd_get_short_arg (encode code args ++ r) i ≡ found v
    unfolding cmd_get_short_arg arg_bytes
    short_arg-encode i v e h =
        ap as_short (cmd_get_arg-encode i false ∙ ap (argument false) e)
        ∙ as_short-found (store_ns (to_uint16 v) ++ []) (to_uint16 v)
            (read_ns-store_ns (to_uint16 v) [] (to_uint16-lt v))
        ∙ ap found (to_int16-to_uint16 v h)

    pub long_arg-encode :
        (i : ℕ) (v : ℤ)
        → get_elem? args i ≡ some (arg_bytes (long v))
        → IsInt32 v
        → cmd_get_long_arg (encode code args ++ r) i ≡ found v
    unfolding cmd_get_long_arg arg_bytes
    long_arg-encode i v e h =
        ap as_long (cmd_get_arg-encode i false ∙ ap (argument false) e)
        ∙ as_long-found (store_nl (to_uint32 v) ++ []) (to_uint32 v)
            (read_nl-store_nl (to_uint32 v) [] (to_uint32-lt v))
        ∙ ap found (to_int32-to_uint32 v h)
