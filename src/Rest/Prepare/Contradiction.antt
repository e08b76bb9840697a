-- ===== src/Rest/Prepare/Contradiction.antt =====
-- ReadPrepare in rest/model.go: a query with a condition of the type NOT.
use wgo.Common.{
  ◌≡◌, ◌≢◌, refl, sym, ap, ◌∙◌, inl, inr, Bool, Option, none, some, List, [], ◌∷◌, ◌++◌, Bytes,
  bytes, All, All-parts, Bool-cases, Option-cases, if◌then◌else◌,
}
use mathlib.Core.Path.{subst}
use wgo.Rest.{Condition, string, text, Leaf, Value, leaf, nested}
use wgo.Rest.Where.{Printer, Call, where_call, t_column, do_where}
use wgo.Rest.Where.Unsatisfiable.{do_where-not}
use wgo.Rest.Prepare.{
  Column, Source, built, with_conditions, read_prepare, Loop, join_step, add_join, join_table,
  joined, then_join, loop_calls, finish_some, column_calls, has_value, or_calls, prepared,
  wrong_type, Prepared, some_of, join_text, or_step, cond_step, cond_steps, ranges_and_orders,
}
use wgo.Rest.Prepare.Deleted.{Has}

calls_of : {I : Type 0} {s s' : Loop I} → some s ≡ some s' → s.calls ≡ s'.calls
calls_of e = cc

module _ {I : Type 0} (fmt : Printer I) (P : Call I → Type 0) where
  add_join-All :
      (v : Condition (Value I)) (vt : Condition (Leaf I)) (s s' : Loop I) (on : Option Bytes)
      → add_join fmt v vt s on ≡ some s'
      → All P s'.calls
      → All P s.calls
  unfolding add_join
  add_join-All v vt s s' none e h = absurd (cc)
  add_join-All v vt s s' (some on) e h =
      (All-parts P s.calls _ (subst (All P) (sym (calls_of e)) h)).0

  join_table-All :
      (v : Condition (Value I)) (vt : Condition (Leaf I)) (s s' : Loop I)
      (cols : Option (List Column))
      → join_table fmt v vt s cols ≡ some s'
      → All P s'.calls
      → All P s.calls
  unfolding join_table
  join_table-All v vt s s' none e h = subst (All P) (sym (calls_of e)) h
  join_table-All v vt s s' (some fcols) e h = elim (Bool-cases (joined fmt vt.field fcols)) [
    | inl found ↦
        add_join-All v vt s s' (join_text fmt v.field v.join_on s.join_count)
          (ap
              (λ b.
                if b
                then add_join fmt v vt s (join_text fmt v.field v.join_on s.join_count)
                else some s)
              (sym found)
            ∙ e)
          h
    | inr missing ↦
        subst (All P)
          (sym (
            calls_of (
              ap
                (λ b.
                  if b
                  then add_join fmt v vt s (join_text fmt v.field v.join_on s.join_count)
                  else some s)
                (sym missing)
              ∙ e)))
          h
  ]

  join_step-All :
      (tables : Bytes → Option (List Column)) (v : Condition (Value I)) (o : Option (Value I))
      (s s' : Loop I)
      → join_step fmt tables v o s ≡ some s'
      → All P s'.calls
      → All P s.calls
  unfolding join_step
  join_step-All tables v none s s' e h = subst (All P) (sym (calls_of e)) h
  join_step-All tables v (some (leaf l)) s s' e h = subst (All P) (sym (calls_of e)) h
  join_step-All tables v (some (nested vt)) s s' e h =
      let wanted = λ (b : Bool). if b then join_table fmt v vt s (tables v.field) else some s in
      elim (Bool-cases (has_value vt.is)) [
        | inl is ↦ join_table-All v vt s s' (tables v.field) (ap wanted (sym is) ∙ e) h
        | inr is_not ↦ subst (All P) (sym (calls_of (ap wanted (sym is_not) ∙ e))) h
      ]

  then_join-All :
      (tables : Bytes → Option (List Column)) (v : Condition (Value I)) (s s' : Loop I)
      (cons : Option (List (Bytes × List Bytes)))
      → then_join fmt tables v s cons ≡ some s'
      → All P s'.calls
      → All P s.calls × All P (do_where fmt v)
  unfolding then_join
  then_join-All tables v s s' none e h = absurd (cc)
  then_join-All tables v s s' (some cons) e h = All-parts P s.calls (do_where fmt v) (
      join_step-All tables v v.join (record s { calls = s.calls ++ do_where fmt v; or_cons = cons })
        s' e h)

  cond_steps-All :
      (tables : Bytes → Option (List Column)) (cons : List (Condition (Value I))) (s s' : Loop I)
      → cond_steps fmt tables cons s ≡ some s'
      → All P s'.calls
      → All P s.calls × All (λ v. All P (do_where fmt v)) cons
  unfolding cond_steps cond_step
  cond_steps-All tables [] s s' e h = (subst (All P) (sym (calls_of e)) h, tt)
  cond_steps-All tables (v ∷ cons) s s' e h = elim (Option-cases (cond_step fmt tables v s)) [
    | inl fails ↦ absurd (cc (e, ap rest_of fails))
    | inr (mid, made) ↦
        let (before, rest) = cond_steps-All tables cons mid s' (sym (ap rest_of made) ∙ e) h in
        let (old, new) =
          then_join-All tables v s mid (or_step fmt v.field v.or s.or_cons) made before in
        (old, (new, rest))
  ]
    where
      rest_of : Option (Loop I) → Option (Loop I)
      rest_of none = none
      rest_of (some mid) = cond_steps fmt tables cons mid

  loop_calls-All :
      (disable : Bool) (cons : List (Condition (Value I))) (o : Option (Loop I))
      (calls : List (Call I))
      → loop_calls fmt disable cons o ≡ some calls
      → All P calls
      → (s : Loop I) × (o ≡ some s) × All P s.calls
  unfolding loop_calls
  loop_calls-All disable cons none calls e h = absurd (cc)
  loop_calls-All disable cons (some s) calls e h =
      let made : ranges_and_orders fmt disable cons ++ (s.calls ++ or_calls fmt s.or_cons) ≡ calls =
        cc in
      let back =
        (All-parts P (ranges_and_orders fmt disable cons) _ (subst (All P) (sym made) h)).1 in
      (s, refl, (All-parts P s.calls (or_calls fmt s.or_cons) back).0)

  with_conditions-All :
      (disable : Bool) (src : Source) (cons : List (Condition (Value I))) (calls : List (Call I))
      → with_conditions fmt disable src cons ≡ some calls
      → All P calls
      → All (λ v. All P (do_where fmt v)) cons
  unfolding with_conditions
  with_conditions-All disable src cons calls e h =
      let (s, ran, all) = loop_calls-All disable cons _ calls e h in
      (cond_steps-All src.table_columns cons _ s ran all).1

  finish_some-All :
      (disable : Bool) (cols : List Column) (o : Option (List (Call I))) (calls : List (Call I))
      → finish_some fmt disable cols o ≡ built calls
      → All P calls
      → (front : List (Call I)) × (o ≡ some front) × All P front
  finish_some-All disable cols none calls e h = absurd (cc)
  finish_some-All disable cols (some front) calls e h =
      let made : front ++ (if disable then [] else column_calls fmt cols none) ≡ calls = cc in
      (front, refl, (All-parts P front _ (subst (All P) (sym made) h)).0)

  read_prepare-All :
      (disable must : Bool) (src : Source) (cons : List (Condition (Value I)))
      (calls : List (Call I))
      → read_prepare fmt disable must (some src) cons ≡ built calls
      → All P calls
      → All (λ v. All P (do_where fmt v)) cons
  unfolding read_prepare
  read_prepare-All disable must src [] calls e h = tt
  read_prepare-All disable must src (v ∷ cons) calls e h = elim (Bool-cases (some_of src.columns)) [
    | inl has_columns ↦
        let e' = ap (read_with disable must src (v ∷ cons)) (sym has_columns) ∙ e in
        let (front, made, all) =
          finish_some-All disable src.columns (with_conditions fmt disable src (v ∷ cons)) calls e'
            h in
        with_conditions-All disable src (v ∷ cons) front made all
    | inr none_there ↦ absurd (cc (ap (read_with disable must src (v ∷ cons)) (sym none_there) ∙ e))
  ]
    where
      read_with : Bool → Bool → Source → List (Condition (Value I)) → Bool → Prepared I
      read_with disable must src cons b =
          if b then prepared fmt disable must src cons else wrong_type

All-Has : {A : Type 0} (Q : A → Type 0) (a : A) (xs : List A) → All Q xs → Has a xs → Q a
All-Has Q a [] h has = absurd has
All-Has Q a (x ∷ xs) h (inl same) = subst Q same h.0
All-Has Q a (x ∷ xs) h (inr behind) = All-Has Q a xs h.1 behind

-- For any model, and conditions of which one has a string as its `Not`, for which a query is made,
-- with what a database does for a row: if a row that meets `T.f = ?` has the argument in its column f,
-- and one that meets `T.f != ?` has it not, then no row meets all the calls that make the query.
pub read_prepare-not :
    {I Row : Type 0} (fmt : Printer I) (Meets : Row → Call I → Type 0) (at : Row → Bytes → Bytes)
    → ((row : Row) (f s : Bytes)
        → Meets row (where_call (t_column f ++ bytes " = ?") (string s ∷ []))
        → at row f ≡ s)
    → ((row : Row) (f s : Bytes)
        → Meets row (where_call (t_column f ++ bytes " != ?") (string s ∷ []))
        → at row f ≢ s)
    → (disable must : Bool) (src : Source) (cons : List (Condition (Value I)))
      (calls : List (Call I))
    → (v : Condition (Value I)) (s : Bytes)
    → read_prepare fmt disable must (some src) cons ≡ built calls
    → Has v cons
    → v.not ≡ some (leaf (text s))
    → (row : Row) → ¬ All (Meets row) calls
read_prepare-not fmt Meets at eq ne disable must src cons calls v s made has not row all =
    do_where-not fmt Meets at eq ne v s not row (
      All-Has (λ c. All (Meets row) (do_where fmt c)) v cons
        (read_prepare-All fmt (Meets row) disable must src cons calls made all) has)
