-- ===== src/Ipc/Build.antt =====
-- Building a command: what construct_cmd makes is the layout of its arguments.
use print3d.Prelude.{
  ℕ, zero, suc, ◌+◌, ◌%◌, ◌^◌, ◌<◌, ◌≡◌, refl, ap, sym, ◌∙◌, true, false, some, List, [], ◌∷◌, ◌++◌,
  map, arith, length, take, drop, append_assoc, append-nil, length-append, length-map, get_elem?,
  zero, suc, subst,
}
use print3d.Prelude.Text.{Bytes}
use print3d.Ipc.Codes.{CommandName, find_command_description}
use print3d.Ipc.Wire.{read_ns, store_ns, store_nl, IsInt16, IsInt32}
use print3d.Ipc.Layout.{encode_arg, encode_args, encode, AllFit}
use print3d.Ipc.Command.{
  found, short, long, text, blob, c_text, cmd_get_short_arg, cmd_get_long_arg, cmd_get_string_arg,
  cmd_get_arg, cmd_set, cmd_add_arg, Arg, arg_bytes, add_args, construct_cmd,
}
use print3d.Ipc.Arguments.{argument, cmd_get_arg-encode, short_arg-encode, long_arg-encode}
use print3d.Ipc.RoundTrip.{encode-append, count_field, drop-encode_head}

encode_args-snoc :
    (args : List Bytes) (a : Bytes)
    → encode_args args ++ encode_arg a ≡ encode_args (args ++ (a ∷ []))
unfolding encode_args
encode_args-snoc [] a = sym (append-nil (encode_arg a))
encode_args-snoc (b ∷ args) a =
    append_assoc (encode_arg b) (encode_args args) (encode_arg a)
    ∙ ap (λ t. encode_arg b ++ t) (encode_args-snoc args a)

cmd_add_arg-stored :
    (buf a stored : Bytes) (n : ℕ)
    → buf ++ (store_nl (length a % 2 ^ 32) ++ a) ≡ stored
    → read_ns (drop 2 stored) ≡ some n
    → cmd_add_arg buf (some a)
      ≡ some (take 2 stored ++ (store_ns ((n + 1) % 2 ^ 16) ++ drop 4 stored))
unfolding cmd_add_arg
cmd_add_arg-stored buf a stored n e =
    subst
      (λ t.
        read_ns (drop 2 t) ≡ some n
        → cmd_add_arg buf (some a) ≡ some (take 2 t ++ (store_ns ((n + 1) % 2 ^ 16) ++ drop 4 t)))
      e (λ read. rw (read, cmd_add_arg) refl)

cmd_add_arg-read :
    (buf a : Bytes) (n : ℕ)
    → length a < 2 ^ 32
    → read_ns (drop 2 (buf ++ encode_arg a)) ≡ some n
    → cmd_add_arg buf (some a)
      ≡ some (
          take 2 (buf ++ encode_arg a)
          ++ (store_ns ((n + 1) % 2 ^ 16) ++ drop 4 (buf ++ encode_arg a)))
unfolding encode_arg
cmd_add_arg-read buf a n fits read =
    let field : length a % 2 ^ 32 ≡ length a = omega arith in
    cmd_add_arg-stored buf a (buf ++ encode_arg a) n (ap (λ k. buf ++ (store_nl k ++ a)) field) read

take-encode :
    (code : ℕ) (args : List Bytes) (r : Bytes) → take 2 (encode code args ++ r) ≡ store_ns code
take-encode code args r = ap (take 2) (encode-append code args r) ∙ (unfold store_ns in refl)

module _ (code : ℕ) (args : List Bytes) (a : Bytes) where
  module _ (count : length args + 1 < 2 ^ 16) (fits : length a < 2 ^ 32) where
    -- An added argument is the last of the layout, and is counted.
    cmd_add_arg-encode :
        cmd_add_arg (encode code args) (some a) ≡ some (encode code (args ++ (a ∷ [])))
    cmd_add_arg-encode =
        let counted : (length args + 1) % 2 ^ 16 ≡ length args + 1 = omega arith in
        let grown : length (args ++ (a ∷ [])) ≡ length args + 1 = length-append args (a ∷ []) in
        cmd_add_arg-read (encode code args) a (length args) fits
          (count_field code args (encode_arg a) (omega arith))
        ∙ ap
            (λ n. some (
              take 2 (encode code args ++ encode_arg a)
              ++ (store_ns n ++ drop 4 (encode code args ++ encode_arg a))))
            (counted ∙ sym grown)
        ∙ ap
            (λ t. some (
              t
              ++ (store_ns (length (args ++ (a ∷ [])))
                  ++ drop 4 (encode code args ++ encode_arg a))))
            (take-encode code args (encode_arg a))
        ∙ ap (λ t. some (store_ns code ++ (store_ns (length (args ++ (a ∷ []))) ++ t)))
            (drop-encode_head code args (encode_arg a) ∙ encode_args-snoc args a)
        ∙ (unfold encode in refl)

add_args-cons :
    (buf buf' : Bytes) (a : Arg) (args : List Arg)
    → cmd_add_arg buf (some (arg_bytes a)) ≡ some buf'
    → add_args buf (a ∷ args) ≡ add_args buf' args
unfolding add_args
add_args-cons buf buf' a args e = rw (e, add_args) refl

add_args-encode :
    (code : ℕ) (args : List Arg) (before : List Bytes)
    → length before + length args < 2 ^ 16
    → AllFit (map arg_bytes args)
    → add_args (encode code before) args ≡ some (encode code (before ++ map arg_bytes args))
add_args-encode code [] before c h =
    (unfold add_args in ap (λ t. some (encode code t)) (sym (append-nil before)))
add_args-encode code (a ∷ args) before c h =
    let grown = length-append before (arg_bytes a ∷ []) in
    add_args-cons (encode code before) (encode code (before ++ (arg_bytes a ∷ []))) a args
      (cmd_add_arg-encode code before (arg_bytes a) (omega arith) h.0)
    ∙ add_args-encode code args (before ++ (arg_bytes a ∷ [])) (omega arith) h.1
    ∙ ap (λ t. some (encode code t)) (append_assoc before (arg_bytes a ∷ []) (map arg_bytes args))

construct_cmd-known :
    (code : ℕ) (args : List Arg) (d : CommandName)
    → find_command_description code ≡ some d
    → construct_cmd code args ≡ add_args (cmd_set code) args
unfolding construct_cmd
construct_cmd-known code args d e = rw (e, construct_cmd) refl

cmd_set-encode : (code : ℕ) → cmd_set code ≡ encode code []
unfolding cmd_set encode encode_args
cmd_set-encode code = refl

-- For a code of the table, construct_cmd builds the layout of the code and its arguments.
pub construct_cmd-encode :
    (code : ℕ) (args : List Arg) (d : CommandName)
    → find_command_description code ≡ some d
    → length args < 2 ^ 16
    → AllFit (map arg_bytes args)
    → construct_cmd code args ≡ some (encode code (map arg_bytes args))
construct_cmd-encode code args d known count fit =
    construct_cmd-known code args d known
    ∙ ap (λ b. add_args b args) (cmd_set-encode code)
    ∙ add_args-encode code args [] (omega arith) fit

-- What reading the argument at an index of a command gives, by the argument's kind.
abbrev pub ReadsBack : Bytes → ℕ → Arg → Type 0
ReadsBack b i (short v) = cmd_get_short_arg b i ≡ found v
ReadsBack b i (long v) = cmd_get_long_arg b i ≡ found v
ReadsBack b i (text s) = cmd_get_string_arg b i ≡ found (c_text s ++ (0 ∷ []))
ReadsBack b i (blob s) =
    (cmd_get_arg b i false ≡ found s) × (cmd_get_string_arg b i ≡ found (s ++ (0 ∷ [])))

abbrev pub InRange : Arg → Type 0
InRange (short v) = IsInt16 v
InRange (long v) = IsInt32 v
InRange (text s) = Unit
InRange (blob s) = Unit

get_elem?-map_arg :
    (args : List Arg) (i : ℕ) (a : Arg)
    → get_elem? args i ≡ some a
    → get_elem? (map arg_bytes args) i ≡ some (arg_bytes a)
get_elem?-map_arg [] i a e = cc
get_elem?-map_arg (x ∷ args) zero a e = ground (arith)
get_elem?-map_arg (x ∷ args) (suc i) a e = get_elem?-map_arg args i a e

module _ (code : ℕ) (args : List Arg) (r : Bytes) (count : length args < 2 ^ 16) where
  module _ (fit : AllFit (map arg_bytes args)) where
    counted_map : length (map arg_bytes args) < 2 ^ 16
    counted_map = rw (length-map args arg_bytes) count

    encode-ReadsBack :
        (i : ℕ) (a : Arg)
        → get_elem? args i ≡ some a
        → InRange a
        → ReadsBack (encode code (map arg_bytes args) ++ r) i a
    unfolding cmd_get_string_arg arg_bytes
    encode-ReadsBack i (short v) e h =
        short_arg-encode code (map arg_bytes args) r counted_map fit i v
          (get_elem?-map_arg args i (short v) e) h
    encode-ReadsBack i (long v) e h =
        long_arg-encode code (map arg_bytes args) r counted_map fit i v
          (get_elem?-map_arg args i (long v) e) h
    encode-ReadsBack i (text s) e h =
        cmd_get_arg-encode code (map arg_bytes args) r counted_map fit i true
        ∙ ap (argument true) (get_elem?-map_arg args i (text s) e)
    encode-ReadsBack i (blob s) e h =
        let read = ap (argument false) (get_elem?-map_arg args i (blob s) e) in
        let ended = ap (argument true) (get_elem?-map_arg args i (blob s) e) in
        (
          cmd_get_arg-encode code (map arg_bytes args) r counted_map fit i false
              ∙ read
              ∙ ap found (append-nil s),
          cmd_get_arg-encode code (map arg_bytes args) r counted_map fit i true ∙ ended,
        )

pub some-inj : (a b : Bytes) → some a ≡ some b → a ≡ b
some-inj a b e = ground arith

-- An argument that construct_cmd was given is read back from the command it built, by the
-- function of its kind, whatever follows the command in the buffer.
pub construct_cmd-ReadsBack :
    (code : ℕ) (args : List Arg) (d : CommandName) (b r : Bytes) (i : ℕ) (a : Arg)
    → find_command_description code ≡ some d
    → length args < 2 ^ 16
    → AllFit (map arg_bytes args)
    → construct_cmd code args ≡ some b
    → get_elem? args i ≡ some a
    → InRange a
    → ReadsBack (b ++ r) i a
construct_cmd-ReadsBack code args d b r i a known count fit built e h =
    let same : encode code (map arg_bytes args) ≡ b =
      some-inj (encode code (map arg_bytes args)) b
        (sym (construct_cmd-encode code args d known count fit) ∙ built) in
    subst (λ t. ReadsBack (t ++ r) i a) same (encode-ReadsBack code args r count fit i a e h)
