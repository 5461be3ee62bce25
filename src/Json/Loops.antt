-- ===== src/Json/Loops.antt =====
-- How many bytes an array, an object and their parts take up in the parser of tools/src/json.c,
-- in terms of the calls in them.
use lg_magic.Json.{
  no_items, no_members, fail, Json, Items, Members, item, member, Cause, Parsed, out_of_fuel,
  skip_ws, max_depth,
}
use lg_magic.Json.Parser.{
  Separator, strip, separator, comma, closing, unknown, parse_array, parse_object, next_items,
  next_members, parse_colon,
}
use lg_magic.Prelude.{
  ℕ, suc, ◌+◌, ◌≤◌, ◌<◌, ◌≢◌, Bool, List, [], ◌∷◌, arith, length, ltb, Bool-cases, Option-cases,
  inl, inr,
}
use lg_magic.Prelude.Result.{ok}
use lg_magic.Json.Fuel.{Fits, Fits-bind, Fits-le, length-skip_ws, length-strip}

module _ {D : Type 0} (strtod : List ℕ → D × ℕ × Bool) where
  -- The loop of an array ends on what is left of the text behind the bracket.
  pub parse_array-Fits :
      (loop : List ℕ → Parsed (Items D)) (depth : ℕ) (text : List ℕ)
      → ((later : List ℕ) → length later ≤ length text → Fits (length later) (loop later))
      → Fits (suc (length text)) (parse_array strtod loop depth text)
  unfolding parse_array
  parse_array-Fits loop depth text fits = elim (Bool-cases (ltb max_depth (depth + 1))) [
    | inl deep ↦ rw (deep, Fits) (λ e. ground arith)
    | inr fine ↦ elim (Option-cases (strip (b']' ∷ []) (skip_ws text))) [
      | inr (rest, closed) ↦
          rw (fine, closed, Fits)
            (omega
              (arith, length-strip (b']' ∷ []) (skip_ws text) rest closed, length-skip_ws text))
      | inl open_ ↦
          rw (fine, open_, Fits)
            (Fits-bind (length (skip_ws text)) (suc (length text)) (loop (skip_ws text)) _
              (fits (skip_ws text) (length-skip_ws text))
              λ xs rest shorter. omega (arith, length-skip_ws text))
    ]
  ]

  pub parse_object-Fits :
      (loop : List ℕ → Parsed (Members D)) (depth : ℕ) (text : List ℕ)
      → ((later : List ℕ) → length later ≤ length text → Fits (length later) (loop later))
      → Fits (suc (length text)) (parse_object strtod loop depth text)
  unfolding parse_object
  parse_object-Fits loop depth text fits = elim (Bool-cases (ltb max_depth (depth + 1))) [
    | inl deep ↦ rw (deep, Fits) (λ e. ground arith)
    | inr fine ↦ elim (Option-cases (strip (b'}' ∷ []) (skip_ws text))) [
      | inr (rest, closed) ↦
          rw (fine, closed, Fits)
            (omega
              (arith, length-strip (b'}' ∷ []) (skip_ws text) rest closed, length-skip_ws text))
      | inl open_ ↦
          rw (fine, open_, Fits)
            (Fits-bind (length (skip_ws text)) (suc (length text)) (loop (skip_ws text)) _
              (fits (skip_ws text) (length-skip_ws text))
              λ ms rest shorter. omega (arith, length-skip_ws text))
    ]
  ]

  next_case-Fits :
      {A : Type 0} (k : Separator) (end : Parsed A) (more : Parsed A) (cause : Cause) (c : ℕ)
      (cs : List ℕ)
      → cause ≢ out_of_fuel
      → Fits (suc (length cs)) end
      → Fits (suc (length cs)) more
      → Fits (suc (length cs)) (elim k as (λ k. Parsed A) [
        | comma ↦ more
        | closing ↦ end
        | unknown ↦ fail cause (c ∷ cs)
      ])
  next_case-Fits comma end more cause c cs proper end_fits more_fits = more_fits
  next_case-Fits closing end more cause c cs proper end_fits more_fits = end_fits
  next_case-Fits unknown end more cause c cs proper end_fits more_fits = proper

  pub next_items-Fits :
      (loop : List ℕ → Parsed (Items D)) (v : Json D) (text : List ℕ)
      → ((later : List ℕ) → length later < length text → Fits (length later) (loop later))
      → Fits (suc (length text)) (next_items strtod loop v text)
  unfolding next_items
  next_items-Fits loop v [] fits = λ e. ground arith
  next_items-Fits loop v (c ∷ cs) fits = Fits-le (next_items strtod loop v (c ∷ cs)) (omega arith) (
      next_case-Fits (separator b']' c) (ok (item v no_items, cs)) _ _ c cs (λ e. ground arith)
        (omega arith)
        (Fits-bind (length (skip_ws cs)) (suc (length cs)) (loop (skip_ws cs)) _
          (fits (skip_ws cs) (omega (arith, length-skip_ws cs)))
          λ xs rest shorter. omega (arith, length-skip_ws cs)))

  pub next_members-Fits :
      (loop : List ℕ → Parsed (Members D)) (key : List ℕ) (v : Json D) (text : List ℕ)
      → ((later : List ℕ) → length later < length text → Fits (length later) (loop later))
      → Fits (suc (length text)) (next_members strtod loop key v text)
  unfolding next_members
  next_members-Fits loop key v [] fits = λ e. ground arith
  next_members-Fits loop key v (c ∷ cs) fits =
      Fits-le (next_members strtod loop key v (c ∷ cs)) (omega arith) (
        next_case-Fits (separator b'}' c) (ok (member key v no_members, cs)) _ _ c cs
          (λ e. ground arith) (omega arith)
          (Fits-bind (length (skip_ws cs)) (suc (length cs)) (loop (skip_ws cs)) _
            (fits (skip_ws cs) (omega (arith, length-skip_ws cs)))
            λ ms rest shorter. omega (arith, length-skip_ws cs)))

  pub parse_colon-Fits : (text : List ℕ) → Fits (length text) (parse_colon strtod text)
  unfolding parse_colon
  parse_colon-Fits text = elim (Option-cases (strip (b':' ∷ []) text)) [
    | inl missing ↦ rw (missing, Fits) (λ e. ground arith)
    | inr (rest, found) ↦ rw (found, Fits) (omega (arith, length-strip (b':' ∷ []) text rest found))
  ]
