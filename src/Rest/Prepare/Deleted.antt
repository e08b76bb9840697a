-- ===== src/Rest/Prepare/Deleted.antt =====
-- ReadPrepare in rest/model.go: rows that are deleted by a mark in a column of the option `logic`.
use wgo.Common.{
  ◌≡◌, refl, ap, ◌⊎◌, inl, inr, Bool, true, false, not, ◌&&◌, Option, none, some, List, [], ◌∷◌,
  ◌++◌, map, Bytes, bytes, bytes_eq, All, Bool-cases, Option-cases, if◌then◌else◌, arith,
}
use mathlib.Core.Path.{subst}
use wgo.Rest.{Condition, Value}
use wgo.Rest.Where.{Printer, Call, where_call, t_column}
use wgo.Rest.Prepare.{
  Column, Source, built, wrong_type, some_of, from_self, own_values, with_conditions, column_calls,
  prepared, read_prepare, self_calls, finish, pk_order, own_order, not_deleted,
}

module _ {A : Type 0} (c : A) where
  abbrev pub Has : List A → Type 0
  Has [] = ⊥
  Has (x ∷ xs) = (x ≡ c) ⊎ Has xs

  Has-behind : (xs ys : List A) → Has ys → Has (xs ++ ys)
  Has-behind [] ys h = h
  Has-behind (x ∷ xs) ys h = inr (Has-behind xs ys h)

  Has-before : (xs ys : List A) → Has xs → Has (xs ++ ys)
  Has-before [] ys h = absurd h
  Has-before (x ∷ xs) ys (inl e) = inl e
  Has-before (x ∷ xs) ys (inr h) = inr (Has-before xs ys h)

-- The call that leaves the deleted rows out.
abbrev pub excludes : {I : Type 0} → Column → Call I
excludes col = where_call (t_column col.tag ++ bytes " != -1") []

module _ {I : Type 0} (fmt : Printer I) where
  abbrev Excluded : List (Call I) → Column → Type 0
  Excluded calls col = col.tag_has (bytes "logic") ≡ true → Has (excludes col) calls

  All-Excluded :
      (front calls : List (Call I)) (cols : List Column)
      → All (Excluded calls) cols
      → All (Excluded (front ++ calls)) cols
  All-Excluded front calls [] h = tt
  All-Excluded front calls (col ∷ cols) h = (
    λ marked. Has-behind (excludes col) front calls (h.0 marked),
    All-Excluded front calls cols h.1,
  )

  column_calls-Excluded :
      (cols : List Column) (pks : Option (Call I)) → All (Excluded (column_calls fmt cols pks)) cols
  unfolding column_calls
  column_calls-Excluded [] pks = tt
  column_calls-Excluded (col ∷ cols) pks =
      let pks' = if col.tag_has (bytes "pk") then some (pk_order fmt col) else pks in
      (
        λ marked.
            Has-behind (excludes col) (own_order fmt col) _
              (Has-before (excludes col) (not_deleted fmt col) _ (rw marked (inl refl))),
        All-Excluded (own_order fmt col) _ cols
            (All-Excluded (not_deleted fmt col) _ cols (column_calls-Excluded cols pks')),
      )

  finish-Excluded :
      (src : Source) (front calls : List (Call I))
      → finish fmt false src.columns front ≡ built calls
      → All (Excluded calls) src.columns
  finish-Excluded src front calls e =
      let made : front ++ column_calls fmt src.columns none ≡ calls = cc in
      subst (λ l. All (Excluded l) src.columns) made
        (All-Excluded front (column_calls fmt src.columns none) src.columns
          (column_calls-Excluded src.columns none))

  -- What a query starts with.
  pub built_from :
      (disable must : Bool) (src : Source) (cons : List (Condition (Value I)))
      (calls : List (Call I))
      → read_prepare fmt disable must (some src) cons ≡ built calls
      → (front : List (Call I)) × (finish fmt disable src.columns front ≡ built calls)
  unfolding read_prepare
  built_from disable must src [] calls e =
      elim (Bool-cases (must && not (some_of (from_self fmt src)))) [
        | inl refused ↦ absurd (ground (arith, refused))
        | inr made ↦ (from_self fmt src, ground (arith, made))
      ]
  built_from disable must src (v ∷ cons) calls e =
      elim (Option-cases (with_conditions fmt disable src (v ∷ cons))) [
        | inl panics ↦ absurd (ground (arith, panics))
        | inr (front, made) ↦ (front, ground (arith, made))
      ]

  -- For any model and conditions for which a query with its order is made: the query leaves out the
  -- rows that are marked as deleted, for every column that marks them.
  pub read_prepare-Excluded :
      (must : Bool) (src : Source) (cons : List (Condition (Value I))) (calls : List (Call I))
      → read_prepare fmt false must (some src) cons ≡ built calls
      → All (λ col. col.tag_has (bytes "logic") ≡ true → Has (excludes col) calls) src.columns
  read_prepare-Excluded must src cons calls e =
      let (front, made) = built_from false must src cons calls e in
      finish-Excluded src front calls made

-- The same column without the option `logic`.
unfoldable pub unmark : Column → Column
unmark col = record col { tag_has = λ o. col.tag_has o && not (bytes_eq o (bytes "logic")) }

module _ {I : Type 0} (fmt : Printer I) where
  own_values-unmark : (cols : List Column) → own_values fmt (map unmark cols) ≡ own_values fmt cols
  unfolding own_values unmark bytes_eq
  own_values-unmark [] = refl
  own_values-unmark (col ∷ cols) = ground (arith, own_values-unmark cols)

  self_calls-unmark :
      (pkey key : Bytes × Bytes) (uks : List (Bytes × Bytes)) (cols : List Column)
      → self_calls fmt pkey key uks (map unmark cols) ≡ self_calls fmt pkey key uks cols
  unfolding self_calls
  self_calls-unmark (pf, b ∷ bs) key uks cols = refl
  self_calls-unmark (pf, []) (kf, b ∷ bs) uks cols = refl
  self_calls-unmark (pf, []) (kf, []) (uk ∷ uks) cols = refl
  self_calls-unmark (pf, []) (kf, []) [] cols = own_values-unmark cols

  abbrev pub unmarked : Source → Source
  unmarked src = record src { columns = map unmark src.columns }

  from_self-unmark : (src : Source) → from_self fmt (unmarked src) ≡ from_self fmt src
  unfolding from_self
  from_self-unmark src = self_calls-unmark src.pkey src.key src.union_keys src.columns

  some_of-map : (cols : List Column) → some_of (map unmark cols) ≡ some_of cols
  some_of-map [] = refl
  some_of-map (col ∷ cols) = refl

  prepared-unmark :
      (must : Bool) (src : Source) (cons : List (Condition (Value I)))
      → prepared fmt true must (unmarked src) cons ≡ prepared fmt true must src cons
  unfolding with_conditions
  prepared-unmark must src [] = rw (from_self-unmark src) refl
  prepared-unmark must src (v ∷ cons) = refl

  -- For any model and conditions: a query without an order, as GetSum makes it, is the same for a model
  -- whose columns do not mark rows as deleted; so it takes the deleted rows with the others.
  pub read_prepare-unmark :
      (must : Bool) (src : Source) (cons : List (Condition (Value I)))
      → read_prepare fmt true must (some (unmarked src)) cons
        ≡ read_prepare fmt true must (some src) cons
  unfolding read_prepare
  read_prepare-unmark must src cons =
      rw (some_of-map src.columns)
        (ap (λ p. if some_of src.columns then p else wrong_type) (prepared-unmark must src cons))
