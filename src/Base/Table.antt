-- ===== src/Base/Table.antt =====
-- A database table with a text primary key: `SELECT … WHERE id=?`, `INSERT … ON CONFLICT(id) DO
-- UPDATE`, and `DELETE`.
use Prim.Native.String.{String}
use mathlib.Core.Path.{◌≡◌, refl, subst}
use mathlib.Core.Logic.{inl, inr}
use mathlib.Core.Bool.{Bool, false, ◌||◌}
use mathlib.Core.Option.{Option, none, some, some-injective}
use mathlib.Core.List.{List, [], ◌∷◌}
use native.Mathlib.Omega.{arith}
use hypershell_reach.Base.Tests.{Bool-cases, if◌then◌else◌}
use hypershell_reach.Base.Text.{str_eq, str_leb, str_eq_iff, str_eq_refl}

abbrev pub Table : Type 0 → Type 0
Table V = List (String × V)

-- `k in ks`.
abbrev pub is_member : String → List String → Bool
is_member k [] = false
is_member k (j ∷ js) = str_eq j k || is_member k js

module _ {V : Type 0} where
  unfoldable pub insert_by_key : String → V → Table V → Table V
  insert_by_key k v [] = (k, v) ∷ []
  insert_by_key k v ((j, w) ∷ t) =
      if str_leb k j then (k, v) ∷ (j, w) ∷ t else (j, w) ∷ insert_by_key k v t

  -- `ORDER BY id`
  unfoldable pub sort_by_key : Table V → Table V
  unfolding insert_by_key
  sort_by_key [] = []
  sort_by_key ((k, v) ∷ t) = insert_by_key k v (sort_by_key t)

  unfoldable pub lookup : String → Table V → Option V
  lookup k [] = none
  lookup k ((j, v) ∷ t) = if str_eq j k then some v else lookup k t

  unfoldable pub upsert : String → V → Table V → Table V
  upsert k v [] = (k, v) ∷ []
  upsert k v ((j, w) ∷ t) = if str_eq j k then (k, v) ∷ t else (j, w) ∷ upsert k v t

  unfoldable pub delete : String → Table V → Table V
  delete k [] = []
  delete k ((j, v) ∷ t) = let rest = delete k t in if str_eq j k then rest else (j, v) ∷ rest

  -- Row by row: every row of the table, and what `lookup` finds.
  abbrev pub AllRows : (String → V → Type 0) → Table V → Type 0
  AllRows P [] = Unit
  AllRows P ((k, v) ∷ t) = P k v × AllRows P t

  pub lookup-upsert :
      (k j : String) (v : V) (t : Table V)
      → lookup j (upsert k v t) ≡ (if str_eq k j then some v else lookup j t)
  unfolding lookup upsert
  lookup-upsert k j v [] = refl
  lookup-upsert k j v ((i, w) ∷ t) =
      ground (arith, str_eq_iff k j, str_eq_iff i k, str_eq_iff i j, lookup-upsert k j v t)

  pub upsert-upsert :
      (k : String) (v w : V) (t : Table V) → upsert k v (upsert k w t) ≡ upsert k v t
  unfolding upsert
  upsert-upsert k v w [] = rw (str_eq_refl k) refl
  upsert-upsert k v w ((i, x) ∷ t) = ground (arith, str_eq_refl k, upsert-upsert k v w t)

  pub lookup-delete :
      (k j : String) (t : Table V)
      → lookup j (delete k t) ≡ (if str_eq k j then none else lookup j t)
  unfolding lookup delete
  lookup-delete k j [] = ground arith
  lookup-delete k j ((i, w) ∷ t) =
      ground (arith, str_eq_iff k j, str_eq_iff i k, str_eq_iff i j, lookup-delete k j t)

  pub AllRows-upsert :
      (P : String → V → Type 0) (k : String) (v : V) (t : Table V)
      → P k v
      → AllRows P t
      → AllRows P (upsert k v t)
  unfolding upsert
  AllRows-upsert P k v [] p h = (p, tt)
  AllRows-upsert P k v ((j, w) ∷ t) p h = ground (arith, AllRows-upsert P k v t p h.1)

  pub AllRows-lookup :
      (P : String → V → Type 0) (k : String) {v : V} (t : Table V)
      → AllRows P t
      → lookup k t ≡ some v
      → P k v
  unfolding lookup
  AllRows-lookup P k {v} [] h e = cc
  AllRows-lookup P k {v} ((j, w) ∷ t) h e = elim (Bool-cases (str_eq j k)) [
    | inl same ↦
        let here : some w ≡ some v = rw (same, lookup) at e in
        subst (λ x. P x v) ((str_eq_iff j k).0 same) (subst (P j) (some-injective w v here) h.0)
    | inr other ↦ AllRows-lookup P k t h.1 (rw (other, lookup) at e)
  ]

  pub AllRows-delete :
      (P : String → V → Type 0) (k : String) (t : Table V) → AllRows P t → AllRows P (delete k t)
  unfolding delete
  AllRows-delete P k [] h = tt
  AllRows-delete P k ((j, w) ∷ t) h = ground (arith, AllRows-delete P k t h.1)

  -- `SELECT id FROM … WHERE p`, in the order of the table.
  unfoldable pub ids_where : (V → Bool) → Table V → List String
  ids_where p [] = []
  ids_where p ((k, v) ∷ t) = let rest = ids_where p t in if p v then k ∷ rest else rest

  -- `DELETE … WHERE id=?` for each of the keys.
  unfoldable pub delete_all : List String → Table V → Table V
  delete_all [] t = t
  delete_all (k ∷ ks) t = delete_all ks (delete k t)

  pub lookup-delete_all :
      (ks : List String) (j : String) (t : Table V)
      → lookup j (delete_all ks t) ≡ (if is_member j ks then none else lookup j t)
  unfolding delete_all
  lookup-delete_all [] j t = refl
  lookup-delete_all (k ∷ ks) j t =
      ground (arith, lookup-delete_all ks j (delete k t), lookup-delete k j t)

  pub AllRows-delete_all :
      (P : String → V → Type 0) (ks : List String) (t : Table V)
      → AllRows P t
      → AllRows P (delete_all ks t)
  unfolding delete_all
  AllRows-delete_all P [] t h = h
  AllRows-delete_all P (k ∷ ks) t h = AllRows-delete_all P ks (delete k t) (AllRows-delete P k t h)

  -- A primary key stands once.
  abbrev pub HasUniqueKeys : Table V → Type 0
  HasUniqueKeys [] = Unit
  HasUniqueKeys ((k, v) ∷ t) = (lookup k t ≡ none) × HasUniqueKeys t

  pub upsert-HasUniqueKeys :
      (k : String) (v : V) (t : Table V) → HasUniqueKeys t → HasUniqueKeys (upsert k v t)
  unfolding upsert lookup
  upsert-HasUniqueKeys k v [] h = (refl, tt)
  upsert-HasUniqueKeys k v ((j, w) ∷ t) h =
      ground (
        arith,
        upsert-HasUniqueKeys k v t h.1,
        lookup-upsert k j v t,
        str_eq_iff j k,
        str_eq_iff k j,
      )

  pub delete-HasUniqueKeys :
      (k : String) (t : Table V) → HasUniqueKeys t → HasUniqueKeys (delete k t)
  unfolding delete lookup
  delete-HasUniqueKeys k [] h = tt
  delete-HasUniqueKeys k ((j, w) ∷ t) h =
      ground
        (arith, delete-HasUniqueKeys k t h.1, lookup-delete k j t, str_eq_iff j k, str_eq_iff k j)

  pub delete_all-HasUniqueKeys :
      (ks : List String) (t : Table V) → HasUniqueKeys t → HasUniqueKeys (delete_all ks t)
  unfolding delete_all
  delete_all-HasUniqueKeys [] t h = h
  delete_all-HasUniqueKeys (k ∷ ks) t h =
      delete_all-HasUniqueKeys ks (delete k t) (delete-HasUniqueKeys k t h)

  -- With unique keys a key is selected just when its row passes the test.
  abbrev pub found_with : (V → Bool) → Option V → Bool
  found_with p none = false
  found_with p (some v) = p v

  member-ids_where-none :
      (p : V → Bool) (k : String) (t : Table V)
      → lookup k t ≡ none
      → is_member k (ids_where p t) ≡ false
  unfolding ids_where lookup
  member-ids_where-none p k [] h = refl
  member-ids_where-none p k ((j, w) ∷ t) h = ground (arith, member-ids_where-none p k t)

  pub member-ids_where :
      (p : V → Bool) (k : String) (t : Table V)
      → HasUniqueKeys t
      → is_member k (ids_where p t) ≡ found_with p (lookup k t)
  unfolding ids_where lookup
  member-ids_where p k [] h = refl
  member-ids_where p k ((j, w) ∷ t) h =
      ground (arith, member-ids_where p k t h.1, member-ids_where-none p k t, str_eq_iff j k)
