-- ===== src/Rest/Select/Admitted.antt =====
-- SetConditions in rest/model.go: which fields it takes conditions for.
use wgo.Common.{
  ℕ, ◌≡◌, refl, sym, inl, inr, Bool, true, false, ◌&&◌, ◌||◌, Option, some, List, [], ◌∷◌, ◌++◌,
  Bytes, bytes, bytes_eq, All, Bool-cases, Option-cases, arith,
}
use mathlib.Core.Path.{subst}
use wgo.Rest.{Condition, Value, leaf, texts, get_condition}
use wgo.Rest.Query.{Clock}
use wgo.Rest.Prepare.{Column, is_searchable, some_of}
use wgo.Rest.Select.{
  Chosen, is_some, parse_condition, take_join, take_raw, take_range, take_order, take_searchable,
  take_column, take_columns, set_conditions, at_places, in_front, rename_if, from_texts, wants_any,
}
use wgo.Rest.Select.Places.{
  Found, Ok, Chose, get_condition-Found, change-Chose, append-Chose, keep_if-Chose, rename_if-Chose,
}

-- A column lets a condition in: by a join with it, or a raw text, or by what it is marked as: the key
-- or one of the keys, a field to search by, a range of times, an order.
abbrev pub admits : Column → {I : Type 0} → Condition (Value I) → Bool
admits col con =
    (bytes_eq con.field col.ext_tag && is_some con.join)
    || (bytes_eq con.field col.tag
        && (some_of con.raw
            || (col.ext_has (bytes "TR")
                || (col.ext_has (bytes "O") || (col.tag_has (bytes "pk") || is_searchable col)))))

module _ {I : Type 0} (P : Condition (Value I) → Type 0) where
  module _ (clock : Clock) (col : Column) (s : Chosen I)
      (p : (con : Condition (Value I)) → admits col con ≡ true → P con) where
    Chose-take_join : Chose P s → Chose P (take_join col s)
    unfolding take_join
    Chose-take_join h =
        keep_if-Chose P (λ c. is_some c.join) col.ext_tag s (λ con same wants. p con (ground arith))
          h

    Chose-take_raw : Chose P s → Chose P (take_raw col s)
    unfolding take_raw
    Chose-take_raw h =
        keep_if-Chose P (λ c. some_of c.raw) col.tag s (λ con same wants. p con (ground arith)) h

    Chose-take_order : Chose P s → Chose P (take_order col s)
    unfolding take_order
    Chose-take_order h = elim (Bool-cases (col.ext_has (bytes "O"))) [
      | inl marked ↦ rw marked (
          rename_if-Chose P col.tag (bytes "O") (λ c. is_some c.order) s
            (λ con same. p con (ground arith)) h)
      | inr plain ↦ rw plain h
    ]

    renamed :
        col.ext_has (bytes "TR") ≡ true
        → Chose P s
        → Chose P (rename_if col.tag (λ c. is_some c.is) (get_condition s.given (bytes "TR")) s)
    renamed marked h =
        rename_if-Chose P col.tag (bytes "TR") (λ c. is_some c.is) s
          (λ con same. p con (ground arith)) h

    Chose-from_texts :
        (i : ℕ) (con : Condition (Value I)) (o : Option (Value I))
        → Found s.given col.tag i con
        → col.ext_has (bytes "TR") ≡ true
        → Chose P s
        → Chose P (from_texts clock i con o s)
    Chose-from_texts i con (some (leaf (texts (a ∷ b ∷ rest)))) found marked h =
        change-Chose P i _ s found.1 (p _ (ground (arith, found.2))) h
    Chose-from_texts i con o found marked h = h

    Chose-take_range : Chose P s → Chose P (take_range clock col s)
    unfolding take_range
    Chose-take_range h = elim (Bool-cases (col.ext_has (bytes "TR"))) [
      | inr plain ↦ rw plain h
      | inl marked ↦ elim (Option-cases (get_condition s.given col.tag)) [
        | inl missing ↦ rw (marked, missing) (renamed marked h)
        | inr (pair, at) ↦
            let found = get_condition-Found s.given col.tag pair.0 pair.1 at in
            let ranged = p pair.1 (ground (arith, found.2)) in
            elim (Bool-cases (is_some pair.1.range)) [
              | inl range ↦ rw (marked, at, range) (append-Chose P pair.0 pair.1 s found.0 ranged h)
              | inr no_range ↦ elim (Bool-cases (is_some pair.1.is)) [
                | inl is ↦
                    rw (marked, at, no_range, is)
                      (Chose-from_texts pair.0 pair.1 pair.1.is found marked h)
                | inr no_is ↦ rw (marked, at, no_range, no_is) (renamed marked h)
              ]
            ]
      ]
    ]

    parse_condition-field :
        (type_name : Bytes) (con : Condition (Value I))
        → (parse_condition clock type_name con).field ≡ con.field
    unfolding parse_condition
    parse_condition-field type_name con = ground arith

    Chose-take_searchable : Chose P s → Chose P (take_searchable clock col s)
    unfolding take_searchable
    Chose-take_searchable h = elim (Bool-cases (col.tag_has (bytes "pk") || is_searchable col)) [
      | inr plain ↦ rw plain h
      | inl marked ↦ elim (Option-cases (get_condition s.given col.tag)) [
        | inl missing ↦ rw (marked, missing) h
        | inr (pair, at) ↦
            let found = get_condition-Found s.given col.tag pair.0 pair.1 at in
            elim (Bool-cases (wants_any pair.1)) [
              | inl wants ↦
                  rw (marked, at, wants)
                    (change-Chose P pair.0 (parse_condition clock col.type_name pair.1) s found.1
                      (p _ (
                        ground
                          (arith, found.2, parse_condition-field col.type_name pair.1, marked)))
                      h)
              | inr nothing ↦ rw (marked, at, nothing) h
            ]
      ]
    ]

  module _ (clock : Clock) where
    Chose-take_column :
        (col : Column) (s : Chosen I)
        → ((con : Condition (Value I)) → admits col con ≡ true → P con)
        → Chose P s
        → Chose P (take_column clock col s)
    unfolding take_column
    Chose-take_column col s p h =
        let s1 = take_join col s in
        let s2 = take_raw col s1 in
        let s3 = take_range clock col s2 in
        let s4 = take_order col s3 in
        Chose-take_searchable clock col s4 p (
          Chose-take_order clock col s3 p (
            Chose-take_range clock col s2 p
              (Chose-take_raw clock col s1 p (Chose-take_join clock col s p h))))

    Chose-take_columns :
        (cols : List Column) (s : Chosen I)
        → All (λ col. (con : Condition (Value I)) → admits col con ≡ true → P con) cols
        → Chose P s
        → Chose P (take_columns clock cols s)
    unfolding take_columns
    Chose-take_columns [] s p h = h
    Chose-take_columns (col ∷ cols) s p h =
        Chose-take_columns cols (take_column clock col s) p.1 (Chose-take_column col s p.0 h)

  All-at_places :
      (given : List (Option (Condition (Value I)))) (is : List ℕ)
      → All (Ok P given) is
      → All P (at_places given is)
  All-at_places given [] h = tt
  All-at_places given (i ∷ is) h =
      subst (λ o. All P (in_front o (at_places given is))) (sym h.0.1)
        (h.0.2, All-at_places given is h.1)

module _ {I : Type 0} where
  -- Some column admits the condition.
  abbrev pub admitted : List Column → Condition (Value I) → Bool
  admitted [] con = false
  admitted (col ∷ cols) con = admits col con || admitted cols con

  admits-admitted :
      (cols : List Column) (P : Condition (Value I) → Type 0)
      → ((con : Condition (Value I)) → admitted cols con ≡ true → P con)
      → All (λ col. (con : Condition (Value I)) → admits col con ≡ true → P con) cols
  admits-admitted [] P p = tt
  admits-admitted (col ∷ cols) P p = (
    λ con a. p con (ground (arith, a)),
    admits-admitted cols P (λ con a. p con (ground (arith, a))),
  )

  -- For any conditions and the columns of any model: those that the model takes are for one of its
  -- columns, by the name for joins and with a join, or by the column's name and with a raw text, or
  -- one that is marked as a key, a field to search by, a range of times or an order; the model's
  -- conditions before stay in front.
  pub set_conditions-admitted :
      (clock : Clock) (cols : List Column) (cs : List (Option (Condition (Value I))))
      (conditions : List (Condition (Value I)))
      → (taken : List (Condition (Value I))) × (set_conditions clock (some cols) cs conditions
          ≡ conditions ++ taken)
        × All (λ con. admitted cols con ≡ true) taken
  unfolding set_conditions
  set_conditions-admitted clock cols cs conditions =
      let start : Chosen I = record { given = cs; places = [] } in
      let s = take_columns clock cols start in
      (
        at_places s.given s.places,
        refl,
        All-at_places (λ con. admitted cols con ≡ true) s.given s.places
            (Chose-take_columns (λ con. admitted cols con ≡ true) clock cols start
              (admits-admitted cols (λ con. admitted cols con ≡ true) (λ con a. a)) tt),
      )
