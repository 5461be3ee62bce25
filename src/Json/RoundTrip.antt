-- ===== src/Json/RoundTrip.antt =====
-- Reading what the writer of tools/src/json.c writes.
use lg_magic.Json.{
  Json, Items, Members, null, bool, num, str, arr, obj, no_items, item, no_members, member, skip_ws,
  is_space,
}
use lg_magic.Json.Parser.{
  next_items, next_members, parse_value, parse_items, parse_members, finish, json_parse,
}
use lg_magic.Json.Writer.{
  escape_string, new_line, fmt_number, dump_value, dump_items, dump_members, json_dumps,
}
use lg_magic.Json.Writable.{is_end, IsWritable, AreWritable, MembersAreWritable}
use lg_magic.Json.Strings.{is_writable, parse_string-escape_string, skip_ws-new_line}
use lg_magic.Prelude.{
  ℕ, zero, suc, ◌+◌, ◌*◌, ◌≤◌, ◌<◌, ◌≡◌, refl, ap, ◌∙◌, Bool, true, false, List, [], ◌∷◌, ◌++◌,
  arith, length, All,
}
use mathlib.Core.List.{append_assoc, append-nil}
use mathlib.Core.Path.{subst}
use lg_magic.Prelude.Result.{ok}
use lg_magic.Json.Steps.{
  begins, skip_ws-comma, skip_ws-begins, begins-StartsNumber, nest3, next_items-closing,
  next_items-comma, next_members-closing, next_members-comma, parse_items-next, parse_members-next,
  parse_number-readable, parse_value-StartsNumber,
}
use lg_magic.Json.Nesting.{
  length-nest, length-nest_member, nest_member, skip_ws-escape_string, parse_value-null,
  parse_value-true, parse_value-false, parse_value-str, parse_value-no_items,
  parse_value-no_members, parse_value-items, parse_value-members,
}

module _ {D : Type 0} (strtod : List ℕ → D × ℕ × Bool) (not_finite scientific : D → Bool)
    (text_g text_f6 : D → List ℕ) where
  abbrev dump : Json D → ℕ → List ℕ
  dump v level = dump_value not_finite scientific text_g text_f6 v level

  abbrev dumps : Items D → ℕ → List ℕ
  dumps vs level = dump_items not_finite scientific text_g text_f6 vs level

  abbrev dumpm : Members D → ℕ → List ℕ
  dumpm ms level = dump_members not_finite scientific text_g text_f6 ms level

  begins-dump_value :
      (v : Json D) (level depth : ℕ) (rest : List ℕ)
      → IsWritable strtod not_finite scientific text_g text_f6 depth v
      → begins (dump v level ++ rest) ≡ true
  unfolding IsWritable dump_value escape_string begins
  begins-dump_value null level depth rest w = refl
  begins-dump_value (bool true) level depth rest w = refl
  begins-dump_value (bool false) level depth rest w = refl
  begins-dump_value (num d) level depth rest w =
      begins-StartsNumber (fmt_number not_finite scientific text_g text_f6 d) rest w.starts
  begins-dump_value (str s) level depth rest w = refl
  begins-dump_value (arr no_items) level depth rest w = refl
  begins-dump_value (arr (item v vs)) level depth rest w = refl
  begins-dump_value (obj no_members) level depth rest w = refl
  begins-dump_value (obj (member k v ms)) level depth rest w = refl

  is_end-dump_items :
      (vs : Items D) (level : ℕ) (rest : List ℕ) → is_end (dumps vs level ++ rest) ≡ true
  unfolding dump_items is_end new_line
  is_end-dump_items no_items level rest = refl
  is_end-dump_items (item v vs) level rest = refl

  is_end-dump_members :
      (ms : Members D) (level : ℕ) (rest : List ℕ) → is_end (dumpm ms level ++ rest) ≡ true
  unfolding dump_members is_end new_line
  is_end-dump_members no_members level rest = refl
  is_end-dump_members (member k v ms) level rest = refl

  -- The end of a line, and the byte that closes the array or the object.
  skip_ws-end :
      (level : ℕ) (c : ℕ) (rest : List ℕ)
      → is_space c ≡ false
      → skip_ws ((new_line level ++ c ∷ []) ++ rest) ≡ c ∷ rest
  unfolding skip_ws
  skip_ws-end level c rest closing_byte =
      ap skip_ws (append_assoc (new_line level) (c ∷ []) rest)
      ∙ skip_ws-new_line level (c ∷ rest)
      ∙ rw closing_byte refl

  parse_items-dump :
      (v : Json D) (a rest : List ℕ) (f level depth : ℕ) (xs : Items D)
      → parse_value strtod f depth (dump v level ++ a) ≡ ok (v, a)
      → next_items strtod (parse_items strtod f depth) v (skip_ws a) ≡ ok (xs, rest)
      → parse_items strtod (suc f) depth (dump v level ++ a) ≡ ok (xs, rest)
  parse_items-dump v a rest f level depth xs read next =
      parse_items-next strtod f depth (dump v level ++ a) a v (ok (xs, rest)) read next

  parse_members-dump :
      (k : List ℕ) (v : Json D) (a rest : List ℕ) (f level depth : ℕ) (ms : Members D)
      → All (λ c. is_writable c ≡ true) k
      → IsWritable strtod not_finite scientific text_g text_f6 depth v
      → parse_value strtod f depth (dump v level ++ a) ≡ ok (v, a)
      → next_members strtod (parse_members strtod f depth) k v (skip_ws a) ≡ ok (ms, rest)
      → parse_members strtod (suc f) depth (escape_string k ++ b':' ∷ b' ' ∷ (dump v level ++ a))
        ≡ ok (ms, rest)
  parse_members-dump k v a rest f level depth ms w wv read next =
      parse_members-next strtod f depth _ (dump v level ++ a) a k v (ok (ms, rest))
        (parse_string-escape_string k (b':' ∷ b' ' ∷ (dump v level ++ a)) w)
        (skip_ws-begins (dump v level ++ a) (begins-dump_value v level depth a wv)) read next

  mutual
    unfolding IsWritable AreWritable MembersAreWritable dump_value dump_items dump_members

    parse_value-dump_value :
        (v : Json D) (f level depth : ℕ) (rest : List ℕ)
        → IsWritable strtod not_finite scientific text_g text_f6 depth v
        → is_end rest ≡ true
        → 2 * length (dump v level) < f
        → parse_value strtod f depth (dump v level ++ rest) ≡ ok (v, rest)
    parse_value-dump_value v zero level depth rest w end enough = absurd (omega arith)
    parse_value-dump_value null (suc f) level depth rest w end enough =
        parse_value-null strtod f depth rest
    parse_value-dump_value (bool true) (suc f) level depth rest w end enough =
        parse_value-true strtod f depth rest
    parse_value-dump_value (bool false) (suc f) level depth rest w end enough =
        parse_value-false strtod f depth rest
    parse_value-dump_value (num d) (suc f) level depth rest w end enough =
        parse_value-StartsNumber strtod f depth (fmt_number not_finite scientific text_g text_f6 d)
          rest w.starts
        ∙ parse_number-readable strtod (fmt_number not_finite scientific text_g text_f6 d) rest d
            w.number_bytes w.digit end (w.read_back rest end)
    parse_value-dump_value (str s) (suc f) level depth rest w end enough =
        parse_value-str strtod f depth s rest w
    parse_value-dump_value (arr no_items) (suc f) level depth rest w end enough =
        parse_value-no_items strtod f depth rest w.0
    parse_value-dump_value (arr (item v vs)) (suc zero) level depth rest w end enough =
        absurd (omega arith)
    parse_value-dump_value (arr (item v vs)) (suc (suc f)) level depth rest w end enough =
        let long = length-nest b'[' (level + 1) (dump v (level + 1)) (dumps vs level) in
        parse_value-items strtod (suc f) depth (level + 1) (dump v (level + 1)) (dumps vs level)
          rest (item v vs) w.0 (begins-dump_value v (level + 1) (depth + 1) _ w.1.0)
          (parse_items-dump v (dumps vs level ++ rest) rest f (level + 1) (depth + 1) (item v vs)
            (parse_value-dump_value v f (level + 1) (depth + 1) (dumps vs level ++ rest) w.1.0
              (is_end-dump_items vs level rest) (omega (arith, long)))
            (next_items-dump_items v vs f level (depth + 1) rest w.1.1 (omega (arith, long))))
    parse_value-dump_value (obj no_members) (suc f) level depth rest w end enough =
        parse_value-no_members strtod f depth rest w.0
    parse_value-dump_value (obj (member k v ms)) (suc zero) level depth rest w end enough =
        absurd (omega arith)
    parse_value-dump_value (obj (member k v ms)) (suc (suc f)) level depth rest w end enough =
        let long =
          length-nest_member b'{' b':' b' ' (level + 1) (escape_string k) (dump v (level + 1))
            (dumpm ms level) in
        parse_value-members strtod (suc f) depth (level + 1) k (dump v (level + 1)) (dumpm ms level)
          rest (member k v ms) w.0
          (parse_members-dump k v (dumpm ms level ++ rest) rest f (level + 1) (depth + 1)
            (member k v ms) w.1.0 w.1.1
            (parse_value-dump_value v f (level + 1) (depth + 1) (dumpm ms level ++ rest) w.1.1
              (is_end-dump_members ms level rest) (omega (arith, long)))
            (next_members-dump_members k v ms f level (depth + 1) rest w.1.2 (omega (arith, long))))

    next_items-dump_items :
        (v : Json D) (vs : Items D) (f level depth : ℕ) (rest : List ℕ)
        → AreWritable strtod not_finite scientific text_g text_f6 depth vs
        → 2 * length (dumps vs level) ≤ f
        → next_items strtod (parse_items strtod f depth) v (skip_ws (dumps vs level ++ rest))
          ≡ ok (item v vs, rest)
    next_items-dump_items v no_items f level depth rest w enough =
        ap (next_items strtod (parse_items strtod f depth) v) (skip_ws-end level b']' rest refl)
        ∙ next_items-closing strtod (parse_items strtod f depth) v rest
    next_items-dump_items v (item x xs) zero level depth rest w enough = absurd (omega arith)
    next_items-dump_items v (item x xs) (suc f) level depth rest w enough =
        let long = length-nest b',' (level + 1) (dump x (level + 1)) (dumps xs level) in
        ap (next_items strtod (parse_items strtod (suc f) depth) v) (skip_ws-comma _)
        ∙ next_items-comma strtod (parse_items strtod (suc f) depth) v
            ((new_line (level + 1) ++ (dump x (level + 1) ++ dumps xs level)) ++ rest)
            (dump x (level + 1) ++ (dumps xs level ++ rest)) (item x xs) rest
            (ap skip_ws (nest3 (new_line (level + 1)) (dump x (level + 1)) (dumps xs level) rest)
              ∙ skip_ws-new_line (level + 1) (dump x (level + 1) ++ (dumps xs level ++ rest))
              ∙ skip_ws-begins (dump x (level + 1) ++ (dumps xs level ++ rest))
                  (begins-dump_value x (level + 1) depth (dumps xs level ++ rest) w.0))
            (parse_items-dump x (dumps xs level ++ rest) rest f (level + 1) depth (item x xs)
              (parse_value-dump_value x f (level + 1) depth (dumps xs level ++ rest) w.0
                (is_end-dump_items xs level rest) (omega (arith, long)))
              (next_items-dump_items x xs f level depth rest w.1 (omega (arith, long))))

    next_members-dump_members :
        (k : List ℕ) (v : Json D) (ms : Members D) (f level depth : ℕ) (rest : List ℕ)
        → MembersAreWritable strtod not_finite scientific text_g text_f6 depth ms
        → 2 * length (dumpm ms level) ≤ f
        → next_members strtod (parse_members strtod f depth) k v (skip_ws (dumpm ms level ++ rest))
          ≡ ok (member k v ms, rest)
    next_members-dump_members k v no_members f level depth rest w enough =
        ap (next_members strtod (parse_members strtod f depth) k v)
          (skip_ws-end level b'}' rest refl)
        ∙ next_members-closing strtod (parse_members strtod f depth) k v rest
    next_members-dump_members k v (member l x ms) zero level depth rest w enough =
        absurd (omega arith)
    next_members-dump_members k v (member l x ms) (suc f) level depth rest w enough =
        let long =
          length-nest_member b',' b':' b' ' (level + 1) (escape_string l) (dump x (level + 1))
            (dumpm ms level) in
        ap (next_members strtod (parse_members strtod (suc f) depth) k v) (skip_ws-comma _)
        ∙ next_members-comma strtod (parse_members strtod (suc f) depth) k v
            ((new_line (level + 1)
                ++ (escape_string l ++ b':' ∷ b' ' ∷ (dump x (level + 1) ++ dumpm ms level)))
              ++ rest)
            (escape_string l ++ b':' ∷ b' ' ∷ (dump x (level + 1) ++ (dumpm ms level ++ rest)))
            (member l x ms) rest
            (ap skip_ws (
                nest_member (new_line (level + 1)) (escape_string l) (dump x (level + 1))
                  (dumpm ms level) rest b':' b' ')
              ∙ skip_ws-new_line (level + 1) (
                  escape_string l ++ b':' ∷ b' ' ∷ (dump x (level + 1) ++ (dumpm ms level ++ rest)))
              ∙ skip_ws-escape_string l _)
            (parse_members-dump l x (dumpm ms level ++ rest) rest f (level + 1) depth
              (member l x ms) w.0 w.1
              (parse_value-dump_value x f (level + 1) depth (dumpm ms level ++ rest) w.1
                (is_end-dump_members ms level rest) (omega (arith, long)))
              (next_members-dump_members l x ms f level depth rest w.2 (omega (arith, long))))

  -- A tree whose numbers `strtod` reads back, whose strings have no byte that is written as \u and
  -- whose arrays and objects are not too deep is what `json_parse` gives for the text that
  -- `json_dumps` writes of it.
  pub json_parse-json_dumps :
      (v : Json D)
      → IsWritable strtod not_finite scientific text_g text_f6 0 v
      → json_parse strtod (json_dumps not_finite scientific text_g text_f6 v) ≡ ok v
  unfolding json_parse json_dumps finish skip_ws
  json_parse-json_dumps v w =
      let read : parse_value strtod (2 * length (dump v 0) + 2) 0 (dump v 0) ≡ ok (v, []) =
        subst (λ t. parse_value strtod (2 * length (dump v 0) + 2) 0 t ≡ ok (v, []))
          (append-nil (dump v 0))
          (parse_value-dump_value v (2 * length (dump v 0) + 2) 0 0 [] w (unfold is_end in refl)
            (omega arith)) in
      rw read refl
