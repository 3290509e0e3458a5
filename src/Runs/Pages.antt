-- ===== src/Runs/Pages.antt =====
-- src/hypershell_reach/runs.py: what a page of `list` holds.
use Prim.Native.Nat.{min}
use hypershell_reach.Base.{
  ℕ, zero, suc, ◌-◌, ◌≡◌, refl, sym, ap, ◌∙◌, inl, inr, String, Bool, true, false, ◌||◌, List, [],
  ◌∷◌, ◌++◌, take, length, keep, length-append, length-take, ltb, arith, Bool-cases,
}
use hypershell_reach.Base.Result.{ok}
use hypershell_reach.Base.Table.{Table, AllRows}
use hypershell_reach.Runs.Record.{RunRecord, Unicode}
use hypershell_reach.Runs.Valid.{validate_of_IsWellFormed}
use hypershell_reach.Runs.Invariant.{IsValid, RowIsValid}
use hypershell_reach.Runs.Store.{RunRow, RunStore, row_of}
use hypershell_reach.Runs.Query.{
  RunFilters, RunSort, selects, is_long, entry_leb, insert_entry, sort_entries, reverse, drop,
  selected, in_order, page, validate_rows, list_runs, count_runs,
}

length-insert_entry :
    (sort : RunSort) (entry : String × RunRow) (t : Table RunRow)
    → length (insert_entry sort entry t) ≡ suc (length t)
length-insert_entry sort entry [] = refl
length-insert_entry sort entry (other ∷ rest) = elim (Bool-cases (entry_leb sort entry other)) [
  | inl first ↦ rw first refl
  | inr later ↦ rw later (ap suc (length-insert_entry sort entry rest))
]

length-sort_entries : (sort : RunSort) (t : Table RunRow) → length (sort_entries sort t) ≡ length t
length-sort_entries sort [] = refl
length-sort_entries sort (entry ∷ rest) =
    length-insert_entry sort entry (sort_entries sort rest) ∙ ap suc (length-sort_entries sort rest)

length-reverse : (t : Table RunRow) → length (reverse t) ≡ length t
length-reverse [] = refl
length-reverse (entry ∷ rest) =
    omega (arith, length-append (reverse rest) (entry ∷ []), length-reverse rest)

length-in_order :
    (sort : RunSort) (descending : Bool) (t : Table RunRow)
    → length (in_order sort descending t) ≡ length t
length-in_order sort true t = length-reverse (sort_entries sort t) ∙ length-sort_entries sort t
length-in_order sort false t = length-sort_entries sort t

length-drop : (n : ℕ) (t : Table RunRow) → length (drop n t) ≡ length t - n
length-drop zero t = omega arith
length-drop (suc n) [] = omega arith
length-drop (suc n) (entry ∷ rest) = omega (arith, length-drop n rest)

module _ (P : String → RunRow → Type 0) where
  insert-AllRows :
      (sort : RunSort) (k : String) (row : RunRow) (t : Table RunRow)
      → P k row
      → AllRows P t
      → AllRows P (insert_entry sort (k, row) t)
  insert-AllRows sort k row [] p h = (p, tt)
  insert-AllRows sort k row ((j, other) ∷ rest) p h =
      elim (Bool-cases (entry_leb sort (k, row) (j, other))) [
        | inl first ↦ rw first (p, h)
        | inr later ↦ rw later (h.0, insert-AllRows sort k row rest p h.1)
      ]

  sort-AllRows : (sort : RunSort) (t : Table RunRow) → AllRows P t → AllRows P (sort_entries sort t)
  sort-AllRows sort [] h = tt
  sort-AllRows sort ((k, row) ∷ rest) h =
      insert-AllRows sort k row (sort_entries sort rest) h.0 (sort-AllRows sort rest h.1)

  append-AllRows : (t v : Table RunRow) → AllRows P t → AllRows P v → AllRows P (t ++ v)
  append-AllRows [] v h k = k
  append-AllRows ((i, row) ∷ rest) v h k = (h.0, append-AllRows rest v h.1 k)

  reverse-AllRows : (t : Table RunRow) → AllRows P t → AllRows P (reverse t)
  reverse-AllRows [] h = tt
  reverse-AllRows ((i, row) ∷ rest) h =
      append-AllRows (reverse rest) ((i, row) ∷ []) (reverse-AllRows rest h.1) (h.0, tt)

  in_order-AllRows :
      (sort : RunSort) (descending : Bool) (t : Table RunRow)
      → AllRows P t
      → AllRows P (in_order sort descending t)
  in_order-AllRows sort true t h = reverse-AllRows (sort_entries sort t) (sort-AllRows sort t h)
  in_order-AllRows sort false t h = sort-AllRows sort t h

  drop-AllRows : (n : ℕ) (t : Table RunRow) → AllRows P t → AllRows P (drop n t)
  drop-AllRows zero t h = h
  drop-AllRows (suc n) [] h = tt
  drop-AllRows (suc n) ((i, row) ∷ rest) h = drop-AllRows n rest h.1

  take-AllRows : (n : ℕ) (t : Table RunRow) → AllRows P t → AllRows P (take n t)
  take-AllRows zero t h = tt
  take-AllRows (suc n) [] h = tt
  take-AllRows (suc n) ((i, row) ∷ rest) h = (h.0, take-AllRows n rest h.1)

module _ ⦃u : Unicode⦄ (filters : RunFilters) where
  abbrev IsSelected : String → RunRow → Type 0
  IsSelected k row = RowIsValid k row × (selects filters row ≡ true)

  IsSelected-AllRows :
      (t : Table RunRow)
      → AllRows RowIsValid t
      → AllRows IsSelected (keep (λ entry. selects filters entry.1) t)
  IsSelected-AllRows [] h = tt
  IsSelected-AllRows ((k, row) ∷ rest) h = elim (Bool-cases (selects filters row)) [
    | inl chosen ↦ rw chosen ((h.0, chosen), IsSelected-AllRows rest h.1)
    | inr left ↦ rw left (IsSelected-AllRows rest h.1)
  ]

  -- Each record's row is one that the filters select.
  abbrev pub AllSelected : List RunRecord → Type 0
  AllSelected [] = Unit
  AllSelected (r ∷ rs) = (selects filters (row_of r) ≡ true) × AllSelected rs

  validated_rows :
      (t : Table RunRow)
      → AllRows IsSelected t
      → (rs : List RunRecord) × (validate_rows t ≡ ok rs) × (length rs ≡ length t) × AllSelected rs
  validated_rows [] h = ([], refl, refl, tt)
  validated_rows ((k, row) ∷ rest) h =
      let (rs, valid, same, all_selected) = validated_rows rest h.1 in
      let (row_valid, chosen) = h.0 in
      (
        row.payload ∷ rs,
        rw (validate_of_IsWellFormed row.payload row_valid.well_formed, valid) refl,
        ap suc same,
        (ap (selects filters) (sym row_valid.columns) ∙ chosen, all_selected),
      )

  -- In a store with valid rows, for a limit from 1 to 500 and a search text that is not too long:
  -- `list` returns as many records as the limit and the offset leave of the number that `count`
  -- returns, and each of them is one that the filters select.
  pub list_runs-AllSelected :
      (sort : RunSort) (descending : Bool) (limit offset : ℕ) (s : RunStore)
      → IsValid s
      → (ltb limit 1 || ltb 500 limit) ≡ false
      → is_long filters.q ≡ false
      → (rs : List RunRecord) × (n : ℕ) × (list_runs filters sort descending limit offset s ≡ ok rs)
        × (count_runs filters s ≡ ok n)
        × (length rs ≡ min limit (n - offset))
        × AllSelected rs
  unfolding list_runs count_runs
  list_runs-AllSelected sort descending limit offset s v in_range short =
      let rows = in_order sort descending (selected filters s) in
      let (rs, valid, size, all_selected) = validated_rows (page limit offset rows) (
        take-AllRows IsSelected limit (drop offset rows) (
          drop-AllRows IsSelected offset rows (
            in_order-AllRows IsSelected sort descending (selected filters s)
              (IsSelected-AllRows s.runs v.rows)))) in
      (
        rs,
        length (selected filters s),
        rw (in_range, short, valid) refl,
        rw short refl,
        size
            ∙ length-take limit (drop offset rows)
            ∙ ap (min limit) (
                length-drop offset rows
                ∙ ap (λ n. n - offset) (length-in_order sort descending (selected filters s))),
        all_selected,
      )
