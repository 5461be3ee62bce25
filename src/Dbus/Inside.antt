-- ===== src/Dbus/Inside.antt =====
-- The bytes that count of a body of tools/src/dbus_client.c, among those that are written.
use lg_magic.Dbus.Writer.{
  Wb, wb_put, wb_u32, wb_u64, wb_pad, wb_str, pad_bytes, body_add_arg, add_args, u32_bytes,
  u64_bytes,
}
use lg_magic.Dbus.{DbusArg}
use lg_magic.Prelude.{
  ℕ, zero, suc, ◌≤◌, ◌≡◌, refl, Bool, true, false, Option, none, some, List, [], ◌∷◌, ◌==◌, ltb,
  length, take, length-append, Bool-cases, Option-cases, arith, inl, inr,
}
use mathlib.Core.Path.{subst}

abbrev pub IsInside : Wb → Type 0
IsInside w = w.nodepad ≤ length w.b

put-IsInside :
    (b : List ℕ) (k : ℕ) (o : Bool) (p : List ℕ)
    → k ≤ length b
    → let w : Wb = record { b = b; nodepad = k; oom = o } in IsInside (wb_put w p)
unfolding wb_put
put-IsInside b k true p inside = inside
put-IsInside b k false p inside = omega arith

wb_put-IsInside : (w : Wb) (p : List ℕ) → IsInside w → IsInside (wb_put w p)
wb_put-IsInside w p inside = put-IsInside w.b w.nodepad w.oom p inside

pad-IsInside :
    (b : List ℕ) (k : ℕ) (o : Bool) (align : ℕ)
    → let w : Wb = record { b = b; nodepad = k; oom = o } in IsInside (wb_pad w align)
unfolding wb_pad wb_put
pad-IsInside b k true align = omega arith
pad-IsInside b k false align = omega (arith, length-append b (pad_bytes align align (length b)))

wb_pad-IsInside : (w : Wb) (align : ℕ) → IsInside (wb_pad w align)
wb_pad-IsInside w align = pad-IsInside w.b w.nodepad w.oom align

wb_str-IsInside : (w : Wb) (s : List ℕ) → IsInside w → IsInside (wb_str w s)
unfolding wb_str
wb_str-IsInside w s inside = elim (Bool-cases (ltb 268435455 (length s))) [
  | inl long ↦ rw long inside
  | inr short ↦ rw short (wb_pad-IsInside _ 4)
]

-- The same of what may not be there.
unfoldable OptionIsInside : Option Wb → Type 0
OptionIsInside none = Unit
OptionIsInside (some w) = IsInside w

body_add_arg-IsInside : (w : Wb) (a : DbusArg) → OptionIsInside (body_add_arg w a)
unfolding body_add_arg wb_u32 wb_u64 OptionIsInside
body_add_arg-IsInside w a = elim (Bool-cases (a.type == b's')) [
  | inl text ↦ rw text (wb_str-IsInside _ a.s (wb_pad-IsInside w 4))
  | inr no_text ↦ rw no_text (elim (Bool-cases (a.type == b'd')) [
    | inl double ↦ rw double (wb_put-IsInside _ (u64_bytes a.d) (wb_pad-IsInside w 8))
    | inr no_double ↦ rw no_double (elim (Bool-cases (a.type == b'u')) [
      | inl number ↦ rw number (wb_put-IsInside _ (u32_bytes a.u) (wb_pad-IsInside w 4))
      | inr other ↦ rw other tt
    ])
  ])
]

args_inside :
    (w : Wb) (sig : List ℕ) (args : List DbusArg)
    → IsInside w
    → OptionIsInside (add_args w sig args)
unfolding add_args OptionIsInside
args_inside w [] args inside = inside
args_inside w (c ∷ sig) [] inside = tt
args_inside w (c ∷ sig) (a ∷ args) inside = elim (Option-cases (body_add_arg w a)) [
  | inl missing ↦ rw (missing, OptionIsInside, add_args) tt
  | inr (more, added) ↦
      rw (added, OptionIsInside, add_args)
        (args_inside more sig args (subst OptionIsInside added (body_add_arg-IsInside w a)))
]

pub add_args-IsInside :
    (w : Wb) (sig : List ℕ) (args : List DbusArg) (body : Wb)
    → IsInside w
    → add_args w sig args ≡ some body
    → IsInside body
unfolding OptionIsInside
add_args-IsInside w sig args body inside added =
    subst OptionIsInside added (args_inside w sig args inside)

pub length-take : (k : ℕ) (b : List ℕ) → k ≤ length b → length (take k b) ≡ k
length-take zero b inside = refl
length-take (suc k) [] inside = absurd (omega arith)
length-take (suc k) (x ∷ xs) inside = omega (arith, length-take k xs (omega arith))
