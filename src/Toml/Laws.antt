-- ===== src/Toml/Laws.antt =====
-- The entries of a table of tools/src/toml.c as a finite map that keeps its order.
use Prim.Native.String.{String}
use lg_magic.Prelude.{◌≡◌, refl, ap, none, some, arith, false}
use lg_magic.Prelude.Text.{str_eq}
use lg_magic.Toml.{Toml, Entries, nil, entry, lookup, add}

module _ {D : Type 0} where
  abbrev pub append : Entries D → Entries D → Entries D
  append nil r = r
  append (entry k v es) r = entry k v (append es r)

  abbrev pub snoc : Entries D → String → Toml D → Entries D
  snoc nil k v = entry k v nil
  snoc (entry j w es) k v = entry j w (snoc es k v)

  pub add-fresh :
      (es : Entries D) (k : String) (v : Toml D)
      → lookup es k ≡ none
      → add es k v ≡ some (snoc es k v)
  unfolding add lookup
  add-fresh nil k v h = refl
  add-fresh (entry j w es) k v h = ground (arith, add-fresh es k v)

  pub lookup-snoc_ne :
      (es : Entries D) (k j : String) (v : Toml D)
      → str_eq k j ≡ false
      → lookup es j ≡ none
      → lookup (snoc es k v) j ≡ none
  unfolding lookup
  lookup-snoc_ne nil k j v ne h = ground arith
  lookup-snoc_ne (entry i w es) k j v ne h = ground (arith, lookup-snoc_ne es k j v ne)

  pub append-snoc :
      (es r : Entries D) (k : String) (v : Toml D)
      → append (snoc es k v) r ≡ append es (entry k v r)
  append-snoc nil r k v = refl
  append-snoc (entry j w es) r k v = ap (entry j w) (append-snoc es r k v)

  pub append-nil : (es : Entries D) → append es nil ≡ es
  append-nil nil = refl
  append-nil (entry j w es) = ap (entry j w) (append-nil es)
