-- ===== src/Ipc/Command.antt =====
-- src/ipc_shared.c: building a command, and taking it apart. A buffer is the list of its bytes, so
-- `buflen` is its length; allocation succeeds. A read past the end of the buffer is `past_end`.
use print3d.Prelude.{
  ℕ, zero, suc, ◌+◌, ◌%◌, ◌^◌, Bool, true, false, Option, none, some, List, [], ◌∷◌, ◌++◌, ltb, leb,
  ◌==◌, if◌then◌else◌, length, take, drop,
}
use print3d.Prelude.Int.{ℤ}
use print3d.Prelude.Text.{Bytes}
use print3d.Ipc.Codes.{invalid, find_command_description}
use print3d.Ipc.Wire.{
  read_ns, read_nl, store_ns, store_nl, to_uint16, to_uint32, to_int16, to_int32,
}

-- What an access to an argument answers: 0 with a value, or -2.
pub data Access (A : Type 0) : Type 0 where
  found : A → Access A
  no_arg past_end : Access A

unfoldable pub cmd_set : ℕ → Bytes
unfolding store_ns
cmd_set code = store_ns code ++ store_ns 0

-- The argument is put behind the buffer, and the count at its start raised; `none` is a buffer
-- without a count.
unfoldable pub cmd_add_arg : Bytes → Option Bytes → Option Bytes
unfolding read_ns store_ns store_nl
cmd_add_arg buf arg =
    let bytes : Bytes = elim arg [ none ↦ [] | some a ↦ a ] in
    let buf' = buf ++ (store_nl (length bytes % 2 ^ 32) ++ bytes) in
    elim (read_ns (drop 2 buf')) [
      | none ↦ none
      | some n ↦ some (take 2 buf' ++ (store_ns ((n + 1) % 2 ^ 16) ++ drop 4 buf'))
    ]

unfoldable pub complete_loop : ℕ → Bytes → ℕ → ℕ
unfolding read_nl
complete_loop zero buf p = p
complete_loop (suc argsleft) buf p =
    if ltb (length buf) (p + 4) then 0 else elim (read_nl (drop p buf)) [
      | none ↦ 0
      | some al ↦
          let rest = complete_loop argsleft buf (p + 4 + al) in
          if ltb (length buf) (p + 4 + al) then 0 else rest
    ]

-- The size of the complete command at the start of the buffer, or 0.
unfoldable pub cmd_is_complete : Bytes → ℕ
unfolding read_ns complete_loop
cmd_is_complete buf =
    if ltb (length buf) 4
    then 0
    else elim (read_ns (drop 2 buf)) [ none ↦ 0 | some n ↦ complete_loop n buf 4 ]

-- `none` is -2.
unfoldable pub cmd_num_args : Bytes → Option ℕ
unfolding read_ns
cmd_num_args buf = if ltb (length buf) 4 then none else read_ns (drop 2 buf)

unfoldable pub cmd_get : Bytes → ℕ
unfolding read_ns
cmd_get buf = elim (read_ns buf) [ none ↦ invalid | some code ↦ code ]

-- The place of the argument that is so many places behind `p`.
unfoldable pub seek_arg : ℕ → Bytes → Option Bytes
unfolding read_nl
seek_arg zero p = some p
seek_arg (suc i) p = elim (read_nl p) [ none ↦ none | some al ↦ seek_arg i (drop (4 + al) p) ]

unfoldable pub take_arg : Bytes → Bool → Access Bytes
unfolding read_nl
take_arg p addzero = elim (read_nl p) [
  | none ↦ past_end
  | some al ↦
      if ltb (length p) (4 + al)
      then past_end
      else found (take al (drop 4 p) ++ (if addzero then 0 ∷ [] else []))
]

unfoldable pub at_arg {ℓ} : {B : Type ℓ} → Bytes → ℕ → B → B → (Bytes → B) → B
unfolding read_ns seek_arg
at_arg buf argidx bad wild f = elim (read_ns (drop 2 buf)) [
  | none ↦ wild
  | some n ↦
      if leb n argidx
      then bad
      else elim (seek_arg argidx (drop 4 buf)) [ none ↦ wild | some p ↦ f p ]
]

unfoldable pub cmd_get_arg : Bytes → ℕ → Bool → Access Bytes
unfolding at_arg take_arg
cmd_get_arg buf argidx addzero = at_arg buf argidx no_arg past_end (λ p. take_arg p addzero)

unfoldable pub arg_len : Bytes → Access ℕ
unfolding read_nl
arg_len p = elim (read_nl p) [ none ↦ past_end | some al ↦ found al ]

unfoldable pub cmd_get_arg_len : Bytes → ℕ → Access ℕ
unfolding at_arg arg_len
cmd_get_arg_len buf argidx = at_arg buf argidx no_arg past_end arg_len

unfoldable pub as_short : Access Bytes → Access ℤ
unfolding read_ns to_int16
as_short (found a) = elim (read_ns a) [ none ↦ past_end | some v ↦ found (to_int16 v) ]
as_short no_arg = no_arg
as_short past_end = past_end

unfoldable pub as_long : Access Bytes → Access ℤ
unfolding read_nl to_int32
as_long (found a) = elim (read_nl a) [ none ↦ past_end | some v ↦ found (to_int32 v) ]
as_long no_arg = no_arg
as_long past_end = past_end

unfoldable pub cmd_get_short_arg : Bytes → ℕ → Access ℤ
unfolding cmd_get_arg as_short
cmd_get_short_arg buf argidx = as_short (cmd_get_arg buf argidx false)

unfoldable pub cmd_get_long_arg : Bytes → ℕ → Access ℤ
unfolding cmd_get_arg as_long
cmd_get_long_arg buf argidx = as_long (cmd_get_arg buf argidx false)

-- The copy that is handed out ends in a zero byte.
unfoldable pub cmd_get_string_arg : Bytes → ℕ → Access Bytes
unfolding cmd_get_arg
cmd_get_string_arg buf argidx = cmd_get_arg buf argidx true

-- The buffer that remains, and the answer 1 (`true`) or 0.
unfoldable pub cmd_remove : Bytes → Bytes × Bool
unfolding cmd_is_complete
cmd_remove buf = let l = cmd_is_complete buf in if l == 0 then (buf, false) else (drop l buf, true)

-- The text that a `char*` stands for.
unfoldable pub c_text : Bytes → Bytes
c_text [] = []
c_text (c ∷ s) = if c == 0 then [] else c ∷ c_text s

-- An argument of construct_cmd with its format: `w`, `W`, `s` and `x`.
pub data Arg : Type 0 where
  short long : ℤ → Arg
  text blob : Bytes → Arg

unfoldable pub arg_bytes : Arg → Bytes
unfolding store_ns store_nl to_uint16 to_uint32 c_text
arg_bytes (short v) = store_ns (to_uint16 v)
arg_bytes (long v) = store_nl (to_uint32 v)
arg_bytes (text s) = c_text s
arg_bytes (blob s) = s

unfoldable pub add_args : Bytes → List Arg → Option Bytes
unfolding arg_bytes cmd_add_arg
add_args buf [] = some buf
add_args buf (a ∷ args) = elim (cmd_add_arg buf (some (arg_bytes a))) [
  | none ↦ none
  | some buf' ↦ add_args buf' args
]

-- A code that the table does not have is `none`: its null description is read for the format.
unfoldable pub construct_cmd : ℕ → List Arg → Option Bytes
unfolding find_command_description cmd_set add_args
construct_cmd code args = elim (find_command_description code) [
  | none ↦ none
  | some _ ↦ add_args (cmd_set code) args
]
