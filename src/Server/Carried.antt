-- ===== src/Server/Carried.antt =====
-- What the handler of gcodeAppend reads in a command with all six arguments.
use print3d.Prelude.{
  ℕ, ◌≤◌, ◌^◌, ◌<◌, ◌≡◌, refl, ap, sym, ◌∙◌, true, Option, none, some, List, [], ◌∷◌, ◌++◌, map,
  arith, length, get_elem?,
}
use print3d.Prelude.Int.{ℤ, pos, negsuc, ltb_ℤ}
use print3d.Prelude.Text.{Bytes, codes}
use print3d.Ipc.Wire.{to_uint16, IsInt16, IsInt32}
use print3d.Ipc.Layout.{encode, AllFit}
use print3d.Ipc.Codes.{CommandName, gcode_append, find_command_description}
use print3d.Ipc.Build.{ReadsBack, InRange, construct_cmd-ReadsBack, construct_cmd-encode, some-inj}
use print3d.Ipc.RoundTrip.{cmd_num_args-encode}
use print3d.Ipc.Command.{
  construct_cmd, found, cmd_num_args, cmd_get_string_arg, cmd_get_short_arg, cmd_get_long_arg,
  c_text, Arg, short, long, text, blob, arg_bytes,
}
use print3d.Server.Client.{Scene}
use print3d.Server.Handlers.{
  num_args, text_arg, optional_long, optional_text, transaction_flags, append_chunk_text,
  append_args,
}

-- What the handler needs of the command: six arguments, read back as what they were.
pub record Carries (buf : Bytes) (chunk : Bytes) (flags total_lines seq_number seq_total : ℤ)
    (source : Bytes) : Type 0 where
  pub count : num_args buf ≡ pos 6
  pub chunk_read : cmd_get_string_arg buf 0 ≡ found (chunk ++ (0 ∷ []))
  pub flags_read : cmd_get_short_arg buf 1 ≡ found flags
  pub total_read : cmd_get_long_arg buf 2 ≡ found total_lines
  pub number_read : cmd_get_long_arg buf 3 ≡ found seq_number
  pub seq_total_read : cmd_get_long_arg buf 4 ≡ found seq_total
  pub source_read : cmd_get_string_arg buf 5 ≡ found (c_text source ++ (0 ∷ []))

c_text-terminated : (s : Bytes) → c_text (s ++ (0 ∷ [])) ≡ c_text s
unfolding c_text
c_text-terminated [] = refl
c_text-terminated (c ∷ s) = ground (arith, c_text-terminated s)

c_text-c_text : (s : Bytes) → c_text (c_text s) ≡ c_text s
unfolding c_text
c_text-c_text [] = refl
c_text-c_text (c ∷ s) = ground (arith, c_text-c_text s)

length-c_text : (s : Bytes) → length (c_text s) ≤ length s
unfolding c_text
length-c_text [] = omega arith
length-c_text (c ∷ s) = ground (arith, length-c_text s)

-- the arguments of gcodeAppend, in the format xwWWWs
abbrev pub six_args : Bytes → ℤ → ℤ → ℤ → ℤ → Bytes → List Arg
six_args chunk flags total_lines seq_number seq_total source =
    blob chunk
    ∷ short flags
    ∷ long total_lines
    ∷ long seq_number
    ∷ long seq_total
    ∷ text source
    ∷ []

abbrev append_name : CommandName
append_name = record {
  code = gcode_append;
  name = codes "gcodeAppend";
  arg_fmt = codes "*";
  reply_fmt = some [];
}

module _ {ℓ} {B : Type ℓ} (buf : Bytes) where
  text_arg-found :
      (i : ℕ) (s : Bytes) (f : Bytes → Option B)
      → cmd_get_string_arg buf i ≡ found (s ++ (0 ∷ []))
      → text_arg buf i f ≡ f (c_text s)
  unfolding text_arg
  text_arg-found i s f e = rw (e, c_text-terminated s, text_arg) refl

  module _ (count : num_args buf ≡ pos 6) where
    optional_long-found :
        (i : ℕ) (v d : ℤ) (f : ℤ → Option B)
        → ltb_ℤ (pos i) (pos 6) ≡ true
        → cmd_get_long_arg buf i ≡ found v
        → optional_long buf i d f ≡ f v
    unfolding optional_long
    optional_long-found i v d f l e = rw (count, l, e, optional_long) refl

    optional_text-found :
        (i : ℕ) (s : Bytes) (f : Option Bytes → Option B)
        → ltb_ℤ (pos i) (pos 6) ≡ true
        → cmd_get_string_arg buf i ≡ found (c_text s ++ (0 ∷ []))
        → optional_text buf i f ≡ f (some (c_text s))
    unfolding optional_text
    optional_text-found i s f l e =
        rw (count, l, optional_text)
          (text_arg-found i (c_text s) (λ t. f (some t)) e ∙ ap (λ t. f (some t)) (c_text-c_text s))

    transaction_flags-found :
        (v : ℤ) (f : ℕ → Option B)
        → cmd_get_short_arg buf 1 ≡ found v
        → transaction_flags buf f ≡ f (to_uint16 v)
    unfolding transaction_flags
    transaction_flags-found v f e = rw (count, e, transaction_flags) refl

module _ (number : Bytes → ℤ) (s : Scene) (buf : Bytes) where
  -- what is left to do once an argument is read
  abbrev with_source : ℕ → ℤ → ℤ → ℤ → Option Bytes → Option Scene
  with_source flags total_lines seq_number seq_total source = text_arg buf 0 (λ chunk.
      append_chunk_text number s flags total_lines
        (record { seq_number = seq_number; seq_total = seq_total; source = source }) chunk)

  abbrev with_total : ℕ → ℤ → ℤ → ℤ → Option Scene
  with_total flags total_lines seq_number seq_total =
      optional_text buf 5 (with_source flags total_lines seq_number seq_total)

  abbrev with_number : ℕ → ℤ → ℤ → Option Scene
  with_number flags total_lines seq_number =
      optional_long buf 4 (negsuc 0) (with_total flags total_lines seq_number)

  abbrev with_lines : ℕ → ℤ → Option Scene
  with_lines flags total_lines = optional_long buf 3 (negsuc 0) (with_number flags total_lines)

  abbrev with_flags : ℕ → Option Scene
  with_flags flags = optional_long buf 2 (negsuc 0) (with_lines flags)

  module _ (chunk : Bytes) (flags total_lines seq_number seq_total : ℤ) (source : Bytes) where
    module _ (c : Carries buf chunk flags total_lines seq_number seq_total source) where
      pub append_args-Carries :
          append_args number s buf
          ≡ append_chunk_text number s
              (to_uint16 flags)
              total_lines
              (record {
                seq_number = seq_number;
                seq_total = seq_total;
                source = some (c_text source);
              })
              (c_text chunk)
      unfolding append_args
      append_args-Carries =
          transaction_flags-found buf c.count flags with_flags c.flags_read
          ∙ optional_long-found buf c.count 2 total_lines (negsuc 0) (with_lines (to_uint16 flags))
              refl c.total_read
          ∙ optional_long-found buf c.count 3 seq_number (negsuc 0)
              (with_number (to_uint16 flags) total_lines) refl c.number_read
          ∙ optional_long-found buf c.count 4 seq_total (negsuc 0)
              (with_total (to_uint16 flags) total_lines seq_number) refl c.seq_total_read
          ∙ optional_text-found buf c.count 5 source
              (with_source (to_uint16 flags) total_lines seq_number seq_total) refl c.source_read
          ∙ text_arg-found buf 0 chunk
              (append_chunk_text number s (to_uint16 flags) total_lines (record {
                seq_number = seq_number;
                seq_total = seq_total;
                source = some (c_text source);
              }))
              c.chunk_read

-- Six arguments whose lengths fit their fields make a command.
pub six_args-encode :
    (chunk : Bytes) (flags total_lines seq_number seq_total : ℤ) (source : Bytes)
    → length chunk < 2 ^ 32
    → length source < 2 ^ 32
    → AllFit (map arg_bytes (six_args chunk flags total_lines seq_number seq_total source))
      × (construct_cmd gcode_append (six_args chunk flags total_lines seq_number seq_total source)
          ≡ some (
              encode gcode_append
                (map arg_bytes (six_args chunk flags total_lines seq_number seq_total source))))
unfolding arg_bytes find_command_description
six_args-encode chunk flags total_lines seq_number seq_total source l l' =
    let args = six_args chunk flags total_lines seq_number seq_total source in
    let short_source = length-c_text source in
    let two : 2 < 2 ^ 32 = omega arith in
    let four : 4 < 2 ^ 32 = omega arith in
    let count : length args < 2 ^ 16 = omega arith in
    let fit : AllFit (map arg_bytes args) = (l, (two, (four, (four, (four, (omega arith, tt)))))) in
    (fit, construct_cmd-encode gcode_append args append_name refl count fit)

module _ (b r chunk : Bytes) (flags total_lines seq_number seq_total : ℤ) (source : Bytes) where
  pub six_args-Carries :
      construct_cmd gcode_append (six_args chunk flags total_lines seq_number seq_total source)
        ≡ some b
      → length chunk < 2 ^ 32
      → length source < 2 ^ 32
      → IsInt16 flags
      → IsInt32 total_lines
      → IsInt32 seq_number
      → IsInt32 seq_total
      → Carries (b ++ r) chunk flags total_lines seq_number seq_total source
  unfolding arg_bytes num_args find_command_description
  six_args-Carries built l l' f t n m =
      let args = six_args chunk flags total_lines seq_number seq_total source in
      let count : length args < 2 ^ 16 = omega arith in
      let (fit, made) = six_args-encode chunk flags total_lines seq_number seq_total source l l' in
      let same : encode gcode_append (map arg_bytes args) ≡ b = some-inj _ b (sym made ∙ built) in
      let reads : (i : ℕ) (a : Arg)
          → get_elem? args i ≡ some a
          → InRange a
          → ReadsBack (b ++ r) i a =
        λ i a e h.
          construct_cmd-ReadsBack gcode_append args append_name b r i a refl count fit built e h in
      record {
        count =
            ap (λ o. elim o [ none ↦ negsuc 1 | some k ↦ pos k ])
              (ap (λ z. cmd_num_args (z ++ r)) (sym same)
                ∙ cmd_num_args-encode gcode_append (map arg_bytes args) r count);
        chunk_read = (reads 0 (blob chunk) refl tt).1;
        flags_read = reads 1 (short flags) refl f;
        total_read = reads 2 (long total_lines) refl t;
        number_read = reads 3 (long seq_number) refl n;
        seq_total_read = reads 4 (long seq_total) refl m;
        source_read = reads 5 (text source) refl tt;
      }
