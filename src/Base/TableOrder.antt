-- ===== src/Base/TableOrder.antt =====
-- `ORDER BY id`: the rows of a table in the order of their keys are the rows of the table.
use Prim.Native.String.{String}
use mathlib.Core.Path.{◌≡◌, refl, ◌∙◌}
use mathlib.Core.Bool.{Bool}
use mathlib.Core.Option.{Option, some, none}
use mathlib.Core.List.{List, [], ◌∷◌}
use hypershell_reach.Base.Lists.{keep}
use native.Mathlib.Omega.{arith}
use hypershell_reach.Base.Tests.{if◌then◌else◌, is_some}
use hypershell_reach.Base.Text.{str_eq, str_eq_iff}
use hypershell_reach.Base.Table.{
  Table, is_member, lookup, insert_by_key, sort_by_key, AllRows, HasUniqueKeys,
}

module _ {V : Type 0} where
  lookup-insert_by_key :
      (j k : String) (v : V) (t : Table V)
      → lookup j t ≡ none
      → lookup k (insert_by_key j v t) ≡ (if str_eq j k then some v else lookup k t)
  unfolding lookup insert_by_key
  lookup-insert_by_key j k v [] new = refl
  lookup-insert_by_key j k v ((i, w) ∷ t) new =
      ground (arith, str_eq_iff i j, str_eq_iff j k, str_eq_iff i k, lookup-insert_by_key j k v t)

  AllRows-insert_by_key :
      (P : String → V → Type 0) (k : String) (v : V) (t : Table V)
      → P k v
      → AllRows P t
      → AllRows P (insert_by_key k v t)
  unfolding insert_by_key
  AllRows-insert_by_key P k v [] p h = (p, tt)
  AllRows-insert_by_key P k v ((j, w) ∷ t) p h = ground (arith, AllRows-insert_by_key P k v t p h.1)

  pub AllRows-sort_by_key :
      (P : String → V → Type 0) (t : Table V) → AllRows P t → AllRows P (sort_by_key t)
  unfolding sort_by_key
  AllRows-sort_by_key P [] h = tt
  AllRows-sort_by_key P ((k, v) ∷ t) h =
      AllRows-insert_by_key P k v (sort_by_key t) h.0 (AllRows-sort_by_key P t h.1)

  pub lookup-sort_by_key :
      (k : String) (t : Table V) → HasUniqueKeys t → lookup k (sort_by_key t) ≡ lookup k t
  unfolding lookup sort_by_key
  lookup-sort_by_key k [] u = refl
  lookup-sort_by_key k ((j, v) ∷ t) u =
      lookup-insert_by_key j k v (sort_by_key t) (lookup-sort_by_key j t u.1 ∙ u.0)
      ∙ rw (lookup-sort_by_key k t u.1) refl

-- `SELECT … WHERE p`, and the rows that are selected.
module _ {V : Type 0} (p : V → Bool) where
  abbrev pub rows_where : Table V → Table V
  rows_where t = keep (λ entry. p entry.1) t

  abbrev pub if_passes : Option V → Option V
  if_passes none = none
  if_passes (some v) = if p v then some v else none

  not_found_where : (k : String) (t : Table V) → lookup k t ≡ none → lookup k (rows_where t) ≡ none
  unfolding lookup
  not_found_where k [] e = refl
  not_found_where k ((j, v) ∷ t) e = ground (arith, not_found_where k t)

  pub rows_where-HasUniqueKeys : (t : Table V) → HasUniqueKeys t → HasUniqueKeys (rows_where t)
  unfolding lookup
  rows_where-HasUniqueKeys [] u = tt
  rows_where-HasUniqueKeys ((j, v) ∷ t) u =
      ground (arith, rows_where-HasUniqueKeys t u.1, not_found_where j t u.0)

  pub lookup-rows_where :
      (k : String) (t : Table V)
      → HasUniqueKeys t
      → lookup k (rows_where t) ≡ if_passes (lookup k t)
  unfolding lookup
  lookup-rows_where k [] u = refl
  lookup-rows_where k ((j, v) ∷ t) u =
      ground (arith, lookup-rows_where k t u.1, not_found_where k t, str_eq_iff j k)

module _ {V : Type 0} where
  abbrev pub keys_of : Table V → List String
  keys_of [] = []
  keys_of ((k, v) ∷ t) = k ∷ keys_of t

  pub member-keys_of : (k : String) (t : Table V) → is_member k (keys_of t) ≡ is_some (lookup k t)
  unfolding lookup
  member-keys_of k [] = refl
  member-keys_of k ((j, v) ∷ t) = ground (arith, member-keys_of k t)
