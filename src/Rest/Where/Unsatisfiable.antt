-- ===== src/Rest/Where/Unsatisfiable.antt =====
-- DoWhere in rest/model.go: a condition of the type NOT.
use wgo.Common.{All-parts, ◌≡◌, ◌≢◌, some, [], ◌∷◌, ◌++◌, Bytes, bytes, All}
use mathlib.Core.Path.{subst}
use wgo.Rest.{Condition, string, text, Value, leaf}
use wgo.Rest.Where.{
  Call, where_call, Printer, t_column, build_where_raw, where_raw, where_not, do_where,
}

-- For any condition with a string as its `Not`, with what a database does for a row: if a row that
-- meets `T.f = ?` has the argument in its column f, and one that meets `T.f != ?` has it not, then no
-- row meets all the calls that the condition makes.
pub do_where-not :
    {I Row : Type 0} (fmt : Printer I) (Meets : Row → Call I → Type 0) (at : Row → Bytes → Bytes)
    → ((row : Row) (f s : Bytes)
        → Meets row (where_call (t_column f ++ bytes " = ?") (string s ∷ []))
        → at row f ≡ s)
    → ((row : Row) (f s : Bytes)
        → Meets row (where_call (t_column f ++ bytes " != ?") (string s ∷ []))
        → at row f ≢ s)
    → (v : Condition (Value I)) (s : Bytes) → v.not ≡ some (leaf (text s))
    → (row : Row) → ¬ All (Meets row) (do_where fmt v)
unfolding do_where build_where_raw where_not
do_where-not fmt Meets at eq ne v s e row all =
    let p1 = All-parts (Meets row) (where_raw fmt v.raw) _ all in
    let p2 = All-parts (Meets row) (build_where_raw fmt (bytes "T") v.field v.is) _ p1.1 in
    let p3 = All-parts (Meets row) (build_where_raw fmt (bytes "T") v.field v.not) _ p2.1 in
    let p4 = All-parts (Meets row) (where_not fmt v.field v.not) _ p3.1 in
    let equal : All (Meets row) (build_where_raw fmt (bytes "T") v.field (some (leaf (text s)))) =
      subst (λ o. All (Meets row) (build_where_raw fmt (bytes "T") v.field o)) e p3.0 in
    let unequal : All (Meets row) (where_not fmt v.field (some (leaf (text s)))) =
      subst (λ o. All (Meets row) (where_not fmt v.field o)) e p4.0 in
    ne row v.field s unequal.0 (eq row v.field s equal.0)
