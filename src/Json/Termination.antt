-- ===== src/Json/Termination.antt =====
-- The fuel of the parser of tools/src/json.c on any text.
use lg_magic.Json.{
  unexpected_end, expected_value, null, bool, fail, Json, str, Failure, Parsed, out_of_fuel,
  skip_ws, parse_string,
}
use lg_magic.Json.Parser.{
  Start, brace, bracket, quotes, letter_t, letter_f, letter_n, number_start, other, start_of,
  parse_number, parse_word, parse_array, parse_object, next_items, next_members, parse_colon,
  parse_value, parse_items, parse_members, finish, json_parse,
}
use lg_magic.Prelude.{
  ℕ, zero, suc, ◌+◌, ◌*◌, ◌<◌, ◌≡◌, ◌≢◌, Bool, true, false, List, [], ◌∷◌, arith, length,
}
use mathlib.Core.Path.{subst}
use lg_magic.Prelude.Result.{ok, err, ◌>>=◌}
use lg_magic.Json.Fuel.{
  Fits, Fits-bind, Fits-le, length-skip_ws, parse_string-Fits, parse_number-Fits, parse_word-Fits,
}
use lg_magic.Json.Loops.{
  parse_array-Fits, parse_object-Fits, next_items-Fits, next_members-Fits, parse_colon-Fits,
}

module _ {D : Type 0} (strtod : List ℕ → D × ℕ × Bool) where
  -- The cases of `parse_value`, at what the calls in them give.
  module _ (object array : Parsed (Json D)) (c : ℕ) (cs : List ℕ) where
    value_case : Start → Parsed (Json D)
    value_case brace = object
    value_case bracket = array
    value_case quotes = parse_string (c ∷ cs) >>= λ (s, rest). ok (str s, rest)
    value_case letter_t = parse_word strtod (b't' ∷ b'r' ∷ b'u' ∷ b'e' ∷ []) (bool true) (c ∷ cs)
    value_case letter_f =
        parse_word strtod (b'f' ∷ b'a' ∷ b'l' ∷ b's' ∷ b'e' ∷ []) (bool false) (c ∷ cs)
    value_case letter_n = parse_word strtod (b'n' ∷ b'u' ∷ b'l' ∷ b'l' ∷ []) null (c ∷ cs)
    value_case number_start = parse_number strtod (c ∷ cs)
    value_case other = fail expected_value (c ∷ cs)

    value_case-Fits :
        (k : Start)
        → Fits (suc (length cs)) object
        → Fits (suc (length cs)) array
        → Fits (suc (length cs)) (value_case k)
    unfolding value_case
    value_case-Fits brace o a = o
    value_case-Fits bracket o a = a
    value_case-Fits quotes o a =
        Fits-bind (suc (length cs)) (suc (length cs)) (parse_string (c ∷ cs)) _
          (parse_string-Fits (c ∷ cs)) λ s rest shorter. shorter
    value_case-Fits letter_t o a = parse_word-Fits strtod b't' _ (bool true) (c ∷ cs)
    value_case-Fits letter_f o a = parse_word-Fits strtod b'f' _ (bool false) (c ∷ cs)
    value_case-Fits letter_n o a = parse_word-Fits strtod b'n' _ null (c ∷ cs)
    value_case-Fits number_start o a = parse_number-Fits strtod (c ∷ cs)
    value_case-Fits other o a = λ e. ground arith

  module _ (f depth : ℕ) where
    value_at : List ℕ → Parsed (Json D)
    value_at [] = fail unexpected_end []
    value_at (c ∷ cs) =
        value_case (parse_object strtod (parse_members strtod f (depth + 1)) depth cs)
          (parse_array strtod (parse_items strtod f (depth + 1)) depth cs) c cs (start_of c)

    value_at-Fits :
        (text : List ℕ)
        → ((later : List ℕ)
            → length later < length text
            → Fits (length later) (parse_items strtod f (depth + 1) later))
        → ((later : List ℕ)
            → length later < length text
            → Fits (length later) (parse_members strtod f (depth + 1) later))
        → Fits (length text) (value_at text)
    unfolding value_at
    value_at-Fits [] items members = λ e. ground arith
    value_at-Fits (c ∷ cs) items members =
        value_case-Fits _ _ c cs (start_of c)
          (parse_object-Fits strtod _ depth cs λ later le. members later (omega (arith, le)))
          (parse_array-Fits strtod _ depth cs λ later le. items later (omega (arith, le)))

  mutual
    unfolding parse_value value_at value_case

    parse_value-Fits :
        (f depth : ℕ) (text : List ℕ)
        → 2 * length text < f
        → Fits (length text) (parse_value strtod f depth text)
    parse_value-Fits zero depth text enough = absurd (omega arith)
    parse_value-Fits (suc f) depth text enough =
        Fits-le (value_at f depth (skip_ws text)) (length-skip_ws text) (
          value_at-Fits f depth (skip_ws text)
            (λ later less.
              parse_items-Fits f (depth + 1) later (omega (arith, length-skip_ws text, less)))
            (λ later less.
              parse_members-Fits f (depth + 1) later (omega (arith, length-skip_ws text, less))))

    parse_items-Fits :
        (f depth : ℕ) (text : List ℕ)
        → suc (2 * length text) < f
        → Fits (length text) (parse_items strtod f depth text)
    parse_items-Fits zero depth text enough = absurd (omega arith)
    parse_items-Fits (suc f) depth text enough =
        Fits-bind (length text) (length text) (parse_value strtod f depth text) _
          (parse_value-Fits f depth text (omega arith))
          λ v rest shorter.
            Fits-le (next_items strtod (parse_items strtod f depth) v (skip_ws rest))
              (omega (arith, length-skip_ws rest))
              (next_items-Fits strtod (parse_items strtod f depth) v (skip_ws rest)
                λ later less. parse_items-Fits f depth later (omega (arith, length-skip_ws rest)))

    parse_members-Fits :
        (f depth : ℕ) (text : List ℕ)
        → suc (2 * length text) < f
        → Fits (length text) (parse_members strtod f depth text)
    parse_members-Fits zero depth text enough = absurd (omega arith)
    parse_members-Fits (suc f) depth text enough =
        Fits-bind (length text) (length text) (parse_string text) _ (parse_string-Fits text)
          λ key rest shorter.
            Fits-bind (length (skip_ws rest)) (length text) (parse_colon strtod (skip_ws rest)) _
              (parse_colon-Fits strtod (skip_ws rest))
              λ _ behind colon.
                let smaller : length (skip_ws behind) < length text =
                  omega (arith, length-skip_ws rest, length-skip_ws behind) in
                Fits-bind (length (skip_ws behind)) (length text)
                  (parse_value strtod f depth (skip_ws behind)) _
                  (parse_value-Fits f depth (skip_ws behind) (omega (arith, smaller)))
                  λ v left less.
                    Fits-le
                      (next_members strtod (parse_members strtod f depth) key v (skip_ws left))
                      (omega (arith, length-skip_ws left, smaller))
                      (next_members-Fits strtod (parse_members strtod f depth) key v (skip_ws left)
                        λ later behind_it.
                          parse_members-Fits f depth later
                            (omega (arith, length-skip_ws left, smaller)))

  finish_cause :
      (v : Json D) (rest : List ℕ) (failure : Failure)
      → finish strtod v rest ≡ err failure
      → failure.cause ≢ out_of_fuel
  unfolding finish
  finish_cause v [] failure h e = cc
  finish_cause v (c ∷ cs) failure h e = ground arith

  -- Whatever the text and whatever `strtod` does, `json_parse` does not run out of fuel: it returns
  -- a tree, or one of the source's errors.
  pub json_parse_ends :
      (text : List ℕ) (failure : Failure)
      → json_parse strtod text ≡ err failure
      → failure.cause ≢ out_of_fuel
  unfolding json_parse
  json_parse_ends text failure h =
      finished (parse_value strtod (2 * length text + 2) 0 text)
        (parse_value-Fits (2 * length text + 2) 0 text (omega arith)) h
    where
      finished :
          (p : Parsed (Json D))
          → Fits (length text) p
          → (p >>= λ (v, rest). finish strtod v (skip_ws rest)) ≡ err failure
          → failure.cause ≢ out_of_fuel
      finished (ok (v, rest)) fits e = finish_cause v (skip_ws rest) failure e
      finished (err why) fits e =
          subst (λ (g : Failure). g.cause ≢ out_of_fuel) {x = why} {y = failure} (cc) fits
