-- ===== src/Json/Writable.antt =====
-- The trees of tools/src/json.c that its texts can carry.
use lg_magic.Json.{
  Json, Items, Members, null, bool, num, str, arr, obj, no_items, item, no_members, member,
  max_depth,
}
use lg_magic.Json.Parser.{number_start, start_of, is_number_byte, has_digit}
use lg_magic.Json.Writer.{fmt_number}
use lg_magic.Json.Strings.{is_writable}
use lg_magic.Prelude.{
  ℕ, ◌+◌, ◌<◌, ◌≡◌, Bool, true, false, ◌||◌, List, [], ◌∷◌, ◌++◌, ◌==◌, All, length,
}

-- The end of the text, or a byte that the writer puts behind a value.
unfoldable pub is_end : List ℕ → Bool
is_end [] = true
is_end (c ∷ cs) = c == b',' || c == 10

-- The first byte is the start of a number for `parse_value`.
unfoldable pub StartsNumber : List ℕ → Type 0
StartsNumber [] = ⊥
StartsNumber (c ∷ cs) = start_of c ≡ number_start

module _ {D : Type 0} (strtod : List ℕ → D × ℕ × Bool) (not_finite scientific : D → Bool)
    (text_g text_f6 : D → List ℕ) where
  -- The text of the number is one for the scanner, and `strtod` reads it back, whatever follows.
  pub record IsReadable (d : D) : Type 0 where
    pub starts : StartsNumber (fmt_number not_finite scientific text_g text_f6 d)
    pub number_bytes :
        All (λ c. is_number_byte c ≡ true) (fmt_number not_finite scientific text_g text_f6 d)
    pub digit : has_digit (fmt_number not_finite scientific text_g text_f6 d) ≡ true
    pub read_back :
        (rest : List ℕ)
        → is_end rest ≡ true
        → strtod (fmt_number not_finite scientific text_g text_f6 d ++ rest)
          ≡ (d, length (fmt_number not_finite scientific text_g text_f6 d), false)

  -- Inside `depth` arrays and objects: the numbers are readable, the strings have no byte that is
  -- written as \u, and no array or object is too deep.
  unfoldable mutual
    pub IsWritable : ℕ → Json D → Type 0
    IsWritable depth null = Unit
    IsWritable depth (bool b) = Unit
    IsWritable depth (num d) = IsReadable d
    IsWritable depth (str s) = All (λ c. is_writable c ≡ true) s
    IsWritable depth (arr vs) = (depth < max_depth) × AreWritable (depth + 1) vs
    IsWritable depth (obj ms) = (depth < max_depth) × MembersAreWritable (depth + 1) ms

    pub AreWritable : ℕ → Items D → Type 0
    AreWritable depth no_items = Unit
    AreWritable depth (item v vs) = IsWritable depth v × AreWritable depth vs

    pub MembersAreWritable : ℕ → Members D → Type 0
    MembersAreWritable depth no_members = Unit
    MembersAreWritable depth (member k v ms) =
        All (λ c. is_writable c ≡ true) k × IsWritable depth v × MembersAreWritable depth ms
