-- ===== src/Ipc/RoundTrip.antt =====
-- What the operations on commands answer for a command in its layout, whatever follows it.
use print3d.Prelude.{
  ℕ, suc, ◌+◌, ◌-◌, ◌^◌, ◌≤◌, ◌<◌, ◌≡◌, refl, ap, sym, ◌∙◌, true, false, some, List, [], ◌∷◌, ◌++◌,
  arith, ltb, ◌==◌, length, drop, append_assoc, length-append, length-drop,
}
use print3d.Prelude.Text.{Bytes}
use print3d.Ipc.Wire.{read_ns, read_nl, store_ns, store_nl, read_ns-store_ns, read_nl-store_nl}
use print3d.Ipc.Layout.{
  encode_arg, encode_args, encode, AllFit, length-encode_arg, drop-drop, drop-behind,
}
use print3d.Ipc.Command.{complete_loop, cmd_is_complete, cmd_num_args, cmd_remove}

pub read_nl-encode_arg :
    (a r : Bytes) → length a < 2 ^ 32 → read_nl (encode_arg a ++ r) ≡ some (length a)
unfolding encode_arg
read_nl-encode_arg a r h =
    ap read_nl (append_assoc (store_nl (length a)) a r) ∙ read_nl-store_nl (length a) (a ++ r) h

pub drop-encode_arg : (a r : Bytes) → drop (4 + length a) (encode_arg a ++ r) ≡ r
drop-encode_arg a r = drop-behind (4 + length a) (encode_arg a) r (length-encode_arg a)

-- One round of the loop steps over one argument.
complete_loop-step :
    (n : ℕ) (buf : Bytes) (p : ℕ) (a r : Bytes)
    → length a < 2 ^ 32
    → p ≤ length buf
    → drop p buf ≡ encode_arg a ++ r
    → complete_loop (suc n) buf p ≡ complete_loop n buf (p + 4 + length a)
unfolding complete_loop
complete_loop-step n buf p a r h l d =
    let read : read_nl (drop p buf) ≡ some (length a) = ap read_nl d ∙ read_nl-encode_arg a r h in
    let size : length buf - p ≡ 4 + length a + length r =
      sym (length-drop p buf)
      ∙ ap length d
      ∙ length-append (encode_arg a) r
      ∙ ap (λ k. k + length r) (length-encode_arg a) in
    let e : ltb (length buf) (p + 4) ≡ false = ground arith in
    let f : ltb (length buf) (p + 4 + length a) ≡ false = ground arith in rw (e, read, f) refl

complete_loop-encode_args :
    (args : List Bytes) (buf r : Bytes) (p : ℕ)
    → AllFit args
    → p ≤ length buf
    → drop p buf ≡ encode_args args ++ r
    → complete_loop (length args) buf p ≡ p + length (encode_args args)
unfolding encode_args
complete_loop-encode_args [] buf r p h l d = unfold complete_loop in omega arith
complete_loop-encode_args (a ∷ args) buf r p h l d =
    let d' : drop p buf ≡ encode_arg a ++ (encode_args args ++ r) =
      d ∙ append_assoc (encode_arg a) (encode_args args) r in
    let size : length buf - p ≡ 4 + length a + length (encode_args args ++ r) =
      sym (length-drop p buf)
      ∙ ap length d'
      ∙ length-append (encode_arg a) _
      ∙ ap (λ k. k + length (encode_args args ++ r)) (length-encode_arg a) in
    let p' = p + 4 + length a in
    let split : p + 4 + length a ≡ p + (4 + length a) = omega arith in
    let behind : drop p' buf ≡ encode_args args ++ r =
      ap (λ k. drop k buf) split
      ∙ drop-drop p (4 + length a) buf
      ∙ ap (drop (4 + length a)) d'
      ∙ drop-encode_arg a _ in
    let lengths = length-append (encode_arg a) (encode_args args) in
    let head = length-encode_arg a in
    complete_loop-step (length args) buf p a (encode_args args ++ r) h.0 l d'
    ∙ complete_loop-encode_args args buf r p' h.1 (omega arith) behind
    ∙ omega arith

pub encode-append :
    (code : ℕ) (args : List Bytes) (r : Bytes)
    → encode code args ++ r ≡ store_ns code ++ (store_ns (length args) ++ (encode_args args ++ r))
unfolding encode
encode-append code args r =
    append_assoc (store_ns code) _ r
    ∙ ap (λ t. store_ns code ++ t) (append_assoc (store_ns (length args)) _ r)

module _ (code : ℕ) (args : List Bytes) (r : Bytes) where
  pub drop-encode_head : drop 4 (encode code args ++ r) ≡ encode_args args ++ r
  drop-encode_head = ap (drop 4) (encode-append code args r) ∙ (unfold store_ns in refl)

  pub length-encode : length (encode code args) ≡ 4 + length (encode_args args)
  unfolding encode store_ns
  length-encode = omega arith

  module _ (count : length args < 2 ^ 16) where
    pub count_field : read_ns (drop 2 (encode code args ++ r)) ≡ some (length args)
    count_field =
        ap (λ t. read_ns (drop 2 t)) (encode-append code args r)
        ∙ ap read_ns (drop-behind 2 (store_ns code) _ (unfold store_ns in refl))
        ∙ read_ns-store_ns (length args) (encode_args args ++ r) count

    pub cmd_num_args-encode : cmd_num_args (encode code args ++ r) ≡ some (length args)
    unfolding cmd_num_args
    cmd_num_args-encode =
        let sizes = length-append (encode code args) r in
        let head = length-encode in
        let e : ltb (length (encode code args ++ r)) 4 ≡ false = ground arith in
        rw (e, count_field) refl

    module _ (fit : AllFit args) where
      -- A command in front of anything else is complete, and its size is its own.
      pub cmd_is_complete-encode :
          cmd_is_complete (encode code args ++ r) ≡ length (encode code args)
      unfolding cmd_is_complete
      cmd_is_complete-encode =
          let sizes = length-append (encode code args) r in
          let head = length-encode in
          let e : ltb (length (encode code args ++ r)) 4 ≡ false = ground arith in
          rw (e, count_field)
            (complete_loop-encode_args args (encode code args ++ r) r 4 fit (omega arith)
                drop-encode_head
              ∙ sym length-encode)

      -- Removing it leaves what follows.
      pub cmd_remove-encode : cmd_remove (encode code args ++ r) ≡ (r, true)
      unfolding cmd_remove
      cmd_remove-encode =
          let head = length-encode in
          let e : (length (encode code args) == 0) ≡ false = ground arith in
          rw
            (
              cmd_is_complete-encode,
              e,
              drop-behind (length (encode code args)) (encode code args) r refl,
            )
            refl
