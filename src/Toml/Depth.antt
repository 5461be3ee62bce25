-- ===== src/Toml/Depth.antt =====
-- How deep a tree may be that the writer of tools/src/toml.c writes.
use Prim.Native.String.{String}
use mathlib.Core.Option
use lg_magic.Prelude.Int.{ℤ}
use lg_magic.Prelude.{
  ℕ, suc, ◌+◌, ◌-◌, ◌≤◌, ◌≡◌, refl, ap, Bool, true, false, Option, some, List, [], ◌∷◌, ◌++◌, ltb,
  leb, if◌then◌else◌, length, length-append, arith,
}
use lg_magic.Toml.Writer.{
  dump_header, dump_scalars, has_scalars, dump_nested, dump_tables, toml_dumps,
}
use lg_magic.Toml.{Toml, Entries, str, int, float, bool, arr, table, nil, entry}

unfoldable pub larger : ℕ → ℕ → ℕ
larger m n = if ltb m n then n else m

-- How many tables lie in one another below this one.
unfoldable pub depth : {D : Type 0} → Entries D → ℕ
depth nil = 0
depth (entry k (table sub) rest) = larger (suc (depth sub)) (depth rest)
depth (entry k (str s) rest) = depth rest
depth (entry k (int n) rest) = depth rest
depth (entry k (float d) rest) = depth rest
depth (entry k (bool b) rest) = depth rest
depth (entry k (arr xs) rest) = depth rest

-- The same of a value.
unfoldable pub value_depth : {D : Type 0} → Toml D → ℕ
value_depth (table sub) = suc (depth sub)
value_depth (str s) = 0
value_depth (int n) = 0
value_depth (float d) = 0
value_depth (bool b) = 0
value_depth (arr xs) = 0

larger_left : (m n k : ℕ) → larger m n ≤ k → m ≤ k
unfolding larger
larger_left m n k within = ground (arith, within)

larger_right : (m n k : ℕ) → larger m n ≤ k → n ≤ k
unfolding larger
larger_right m n k within = ground (arith, within)

larger_within : (m n k : ℕ) → m ≤ k → n ≤ k → larger m n ≤ k
unfolding larger
larger_within m n k left right = ground (arith, left, right)

-- A tree is within a depth where the first value and the other entries are.
pub depth-entry_within :
    {D : Type 0} (key : String) (v : Toml D) (rest : Entries D) (k : ℕ)
    → value_depth v ≤ k
    → depth rest ≤ k
    → depth (entry key v rest) ≤ k
unfolding depth value_depth
depth-entry_within key (table sub) rest k first others = larger_within _ _ k first others
depth-entry_within key (str s) rest k first others = others
depth-entry_within key (int n) rest k first others = others
depth-entry_within key (float d) rest k first others = others
depth-entry_within key (bool b) rest k first others = others
depth-entry_within key (arr xs) rest k first others = others

pub value_depth_within :
    {D : Type 0} (key : String) (v : Toml D) (rest : Entries D) (k : ℕ)
    → depth (entry key v rest) ≤ k
    → value_depth v ≤ k
unfolding depth value_depth
value_depth_within key (table sub) rest k within = larger_left _ (depth rest) k within
value_depth_within key (str s) rest k within = omega arith
value_depth_within key (int n) rest k within = omega arith
value_depth_within key (float d) rest k within = omega arith
value_depth_within key (bool b) rest k within = omega arith
value_depth_within key (arr xs) rest k within = omega arith

pub rest_depth_within :
    {D : Type 0} (key : String) (v : Toml D) (rest : Entries D) (k : ℕ)
    → depth (entry key v rest) ≤ k
    → depth rest ≤ k
unfolding depth
rest_depth_within key (table sub) rest k within = larger_right (suc (depth sub)) _ k within
rest_depth_within key (str s) rest k within = within
rest_depth_within key (int n) rest k within = within
rest_depth_within key (float d) rest k within = within
rest_depth_within key (bool b) rest k within = within
rest_depth_within key (arr xs) rest k within = within

room : (d n : ℕ) → d + n ≤ 63 → d ≤ 63 - n
room d n within = omega (arith, within)

is_shallow : (d n : ℕ) → suc d ≤ 63 - n → leb 63 n ≡ false
is_shallow d n below = ground (arith, below)

module _ {D : Type 0} (bytes_of : String → List ℕ) (text_lld : ℤ → List ℕ)
    (text_g : D → List ℕ) where
  nested_is_written :
      (need_nl : Bool) (path : List (List ℕ)) (sub : Entries D) (nested later : Option (List ℕ))
      (inside behind : List ℕ)
      → nested ≡ some inside
      → later ≡ some behind
      → (text : List ℕ) × (dump_nested bytes_of text_lld text_g need_nl path sub nested later
          ≡ some text)
  unfolding dump_nested
  nested_is_written need_nl path sub nested later inside behind n l = (
    dump_header need_nl path ++ (dump_scalars bytes_of text_lld text_g sub ++ (inside ++ behind)),
    rw (n, l) refl,
  )

  pub dump_tables_within :
      (need_nl : Bool) (es : Entries D) (segs : List (List ℕ))
      → depth es + length segs ≤ 63
      → (text : List ℕ) × (dump_tables bytes_of text_lld text_g need_nl es segs ≡ some text)
  unfolding depth dump_tables
  dump_tables_within need_nl nil segs within = ([], refl)
  dump_tables_within need_nl (entry k (table sub) rest) segs within =
      let path = segs ++ bytes_of k ∷ [] in
      let below = larger_left (suc (depth sub)) (depth rest) _ (room _ (length segs) within) in
      let beside = larger_right (suc (depth sub)) (depth rest) _ (room _ (length segs) within) in
      let shallow : leb 63 (length segs) ≡ false = is_shallow (depth sub) (length segs) below in
      let sub_within : depth sub + length path ≤ 63 =
        omega (arith, below, within, length-append segs (bytes_of k ∷ [])) in
      let rest_within : depth rest + length segs ≤ 63 = omega (arith, beside, within) in
      let (inside, written) = dump_tables_within (has_scalars sub) sub path sub_within in
      let (behind, then_written) = dump_tables_within true rest segs rest_within in
      rw shallow (nested_is_written need_nl path sub _ _ inside behind written then_written)
  dump_tables_within need_nl (entry k (str s) rest) segs within =
      dump_tables_within need_nl rest segs within
  dump_tables_within need_nl (entry k (int n) rest) segs within =
      dump_tables_within need_nl rest segs within
  dump_tables_within need_nl (entry k (float d) rest) segs within =
      dump_tables_within need_nl rest segs within
  dump_tables_within need_nl (entry k (bool b) rest) segs within =
      dump_tables_within need_nl rest segs within
  dump_tables_within need_nl (entry k (arr xs) rest) segs within =
      dump_tables_within need_nl rest segs within

  -- A tree of no more than 63 tables in one another is written.
  pub toml_dumps_within :
      (es : Entries D)
      → depth es ≤ 63
      → (text : List ℕ) × (toml_dumps bytes_of text_lld text_g (table es) ≡ some text)
  unfolding toml_dumps
  toml_dumps_within es within =
      let (nested, written) = dump_tables_within (has_scalars es) es [] (omega (arith, within)) in
      (
        dump_scalars bytes_of text_lld text_g es ++ nested,
        ap (Option.map (λ text. dump_scalars bytes_of text_lld text_g es ++ text)) written,
      )
