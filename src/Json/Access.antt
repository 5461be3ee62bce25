-- ===== src/Json/Access.antt =====
-- The accessors and the construction of trees of tools/src/json.c. A pointer that can be NULL is an
-- option.
use lg_magic.Json.{Json, Items, Members, num, arr, obj, no_items, item, no_members, member}
use lg_magic.Prelude.{ℕ, zero, suc, Bool, true, false, Option, none, some, List, if◌then◌else◌}
use lg_magic.Prelude.Result.{Result, ok, err}
use lg_magic.Prelude.Text.{same_bytes}
use lg_magic.Prelude.Three.{Three}

-- The -1 of `json_arr_add` and `json_obj_add`.
pub data Rejected : Type 0 where
  rejected : Rejected

module _ {D : Type 0} where
  -- The loop of `json_obj_get`.
  unfoldable pub find_member : Members D → List ℕ → Option (Json D)
  find_member no_members key = none
  find_member (member k v ms) key =
      let rest = find_member ms key in if same_bytes k key then some v else rest

  unfoldable pub json_obj_get : Option (Json D) → List ℕ → Option (Json D)
  json_obj_get (some (obj ms)) key = find_member ms key
  json_obj_get o key = none

  unfoldable pub item_at : Items D → ℕ → Option (Json D)
  item_at no_items i = none
  item_at (item v vs) zero = some v
  item_at (item v vs) (suc i) = item_at vs i

  unfoldable pub json_array_get : Option (Json D) → ℕ → Option (Json D)
  json_array_get (some (arr vs)) i = item_at vs i
  json_array_get o i = none

  unfoldable pub json_array_get_num : Option (Json D) → ℕ → D → D
  json_array_get_num o i default = elim (json_array_get o i) [ some (num d) ↦ d | _ ↦ default ]

  -- The loop of `json_get_float3` over three items: whether each is a number, and the array with
  -- those before the first that is not.
  unfoldable pub fill3 : Json D → Json D → Json D → Three D → Bool × Three D
  fill3 (num a) (num b) (num c) out = (true, record { at0 = a; at1 = b; at2 = c })
  fill3 (num a) (num b) z out = (false, record out { at0 = a; at1 = b })
  fill3 (num a) y z out = (false, record out { at0 = a })
  fill3 x y z out = (false, out)

  -- An array of three numbers, as `json_get_float3` and the rows of `json_get_mat3` want one.
  unfoldable pub read_row : Json D → Three D → Bool × Three D
  read_row (arr (item x (item y (item z no_items)))) out = fill3 x y z out
  read_row v out = (false, out)

  -- Whether it returns 0, and `out` after it.
  unfoldable pub json_get_float3 : Option (Json D) → List ℕ → Three D → Bool × Three D
  json_get_float3 o key out = elim (json_obj_get o key) [
    | none ↦ (false, out)
    | some v ↦ read_row v out
  ]

  -- The loop of `json_get_mat3` over three rows.
  unfoldable pub fill_rows : Json D → Json D → Json D → Three (Three D) → Bool × Three (Three D)
  fill_rows x y z out =
      let (first, row0) = read_row x out.at0 in
      let (second, row1) = read_row y out.at1 in
      let (third, row2) = read_row z out.at2 in
      if first
      then (if second
          then (third, record { at0 = row0; at1 = row1; at2 = row2 })
          else (false, record out { at0 = row0; at1 = row1 }))
      else (false, record out { at0 = row0 })

  unfoldable pub read_matrix : Json D → Three (Three D) → Bool × Three (Three D)
  read_matrix (arr (item x (item y (item z no_items)))) out = fill_rows x y z out
  read_matrix v out = (false, out)

  unfoldable pub json_get_mat3 : Option (Json D) → List ℕ → Three (Three D) → Bool × Three (Three D)
  json_get_mat3 o key out = elim (json_obj_get o key) [
    | none ↦ (false, out)
    | some v ↦ read_matrix v out
  ]

  unfoldable pub append_item : Items D → Json D → Items D
  append_item no_items v = item v no_items
  append_item (item x xs) v = item x (append_item xs v)

  unfoldable pub json_arr_add : Json D → Json D → Result Rejected (Json D)
  json_arr_add (arr vs) v = ok (arr (append_item vs v))
  json_arr_add x v = err rejected

  unfoldable pub append_member : Members D → List ℕ → Json D → Members D
  append_member no_members key v = member key v no_members
  append_member (member k x ms) key v = member k x (append_member ms key v)

  unfoldable pub json_obj_add : Json D → List ℕ → Json D → Result Rejected (Json D)
  json_obj_add (obj ms) key v = ok (obj (append_member ms key v))
  json_obj_add x key v = err rejected
