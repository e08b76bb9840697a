-- ===== src/Rest/Where/Marks.antt =====
-- DoWhere in rest/model.go: the marks `?` in its texts.
use wgo.Common.{
  All-append, ℕ, ◌+◌, ◌≡◌, refl, ◌∙◌, Bool, true, false, Option, none, some, List, [], ◌∷◌, ◌++◌,
  Bytes, bytes, length, All, ◌==◌, if◌then◌else◌, arith,
}
use wgo.Rest.{
  Condition, text, number, pointer, texts, numbers, items, time_range, moment, order_by, other,
  Value, leaf, nested,
}
use wgo.Rest.Where.{
  Call, where_call, order_call, joins_call, Printer, group, column, t_column, quoted,
  build_where_raw, where_raw, where_not, where_gt, where_lt, where_like, do_where, parts,
}

-- How many marks `?` a text has.
unfoldable pub marks : Bytes → ℕ
marks [] = 0
marks (b ∷ bs) = (if b == b'?' then 1 else 0) + marks bs

marks-append : (a b : Bytes) → marks (a ++ b) ≡ marks a + marks b
unfolding marks
marks-append [] b = omega arith
marks-append (c ∷ a) b = omega (arith, marks-append a b)

abbrev Plain : Bytes → Type 0
Plain s = marks s ≡ 0

-- As many marks as arguments.
abbrev pub Matched : {I : Type 0} → Call I → Type 0
Matched (where_call query args) = marks query ≡ length args
Matched (order_call order) = Unit
Matched (joins_call join) = Unit

module _ {A : Type 0} (sep : Bytes) (part : A → Bytes) (s : Plain sep) where
  parts-Plain :
      (first : Bool) (vs : List A) → All (λ v. Plain (part v)) vs → Plain (parts sep part first vs)
  unfolding marks
  parts-Plain true [] h = refl
  parts-Plain false [] h = refl
  parts-Plain true (v ∷ vs) h =
      marks-append (part v) _ ∙ omega (arith, h.0, parts-Plain false vs h.1)
  parts-Plain false (v ∷ vs) h =
      marks-append sep _
      ∙ omega
          (arith, s, h.0, marks-append (part v) (parts sep part false vs), parts-Plain false vs h.1)

  group-Plain : (vs : List A) → All (λ v. Plain (part v)) vs → Plain (group sep part vs)
  unfolding group marks
  group-Plain vs h =
      omega (arith, marks-append (parts sep part true vs) (bytes ")"), parts-Plain true vs h)

column-Plain : (table field : Bytes) → Plain table → Plain field → Plain (column table field)
unfolding column marks
column-Plain table field t f =
    marks-append table _ ∙ omega (arith, t, f, marks-append field (bytes "`"))

-- The texts that become part of a query have no mark.
abbrev pub Unmarked : {I : Type 0} → Printer I → Option (Value I) → Type 0
Unmarked fmt (some (leaf (texts vs))) = All (λ v. marks v ≡ 0) vs
Unmarked fmt (some (leaf (numbers vs))) = All (λ v. marks (fmt.decimal v) ≡ 0) vs
Unmarked fmt (some (leaf (items vs))) =
    All (λ v. (marks (fmt.sprint v) ≡ 0) × (marks (fmt.verb v) ≡ 0)) vs
Unmarked fmt _ = Unit

quoted-Plain : (s : Bytes) → Plain s → Plain (quoted s)
unfolding marks
quoted-Plain s h = omega (arith, h, marks-append s (bytes "'"))

All-map {ℓ} :
    {A : Type ℓ} (P Q : A → Type 0) (vs : List A) → ((v : A) → P v → Q v) → All P vs → All Q vs
All-map P Q [] f h = tt
All-map P Q (v ∷ vs) f h = (f v h.0, All-map P Q vs f h.1)

Plain-append : (a b : Bytes) → Plain a → Plain b → Plain (a ++ b)
Plain-append a b h k = marks-append a b ∙ omega (arith, h, k)

module _ (table field : Bytes) (t : Plain table) (f : Plain field) where
  one_mark : (op : Bytes) → marks op ≡ 1 → marks (column table field ++ op) ≡ 1
  one_mark op h =
      marks-append (column table field) op ∙ omega (arith, h, column-Plain table field t f)

  list-Plain :
      {A : Type 0} (op : Bytes) (print : A → Bytes) (vs : List A)
      → Plain op
      → All (λ v. Plain (print v)) vs
      → Plain (column table field ++ (op ++ group (bytes ",") (λ v. quoted (print v)) vs))
  unfolding marks
  list-Plain op print vs o h =
      let quoted_all =
        All-map (λ v. Plain (print v)) (λ v. Plain (quoted (print v))) vs
          (λ v. quoted-Plain (print v)) h in
      let listed = group-Plain (bytes ",") (λ v. quoted (print v)) refl vs quoted_all in
      Plain-append (column table field) _ (column-Plain table field t f)
        (Plain-append op _ o listed)

module _ {I : Type 0} (fmt : Printer I) (table field : Bytes) (t : Plain table)
    (f : Plain field) where
  pub build_where_raw-Matched :
      (o : Option (Value I)) → Unmarked fmt o → All Matched (build_where_raw fmt table field o)
  unfolding build_where_raw marks
  build_where_raw-Matched none h = tt
  build_where_raw-Matched (some (leaf (pointer v))) h =
      (one_mark table field t f (bytes " = ?") refl, tt)
  build_where_raw-Matched (some (leaf (text s))) h =
      (one_mark table field t f (bytes " = ?") refl, tt)
  build_where_raw-Matched (some (leaf (number n))) h =
      (one_mark table field t f (bytes " = ?") refl, tt)
  build_where_raw-Matched (some (leaf (texts vs))) h =
      (list-Plain table field t f (bytes " IN ") (λ s. s) vs refl h, tt)
  build_where_raw-Matched (some (leaf (numbers vs))) h =
      (list-Plain table field t f (bytes " IN ") fmt.decimal vs refl h, tt)
  build_where_raw-Matched (some (leaf (items vs))) h = (
    list-Plain table field t f (bytes " IN ") fmt.sprint vs refl (All-map _ _ vs (λ v p. p.0) h),
    tt,
  )
  build_where_raw-Matched (some (leaf (time_range tr))) h = tt
  build_where_raw-Matched (some (leaf (moment m))) h = tt
  build_where_raw-Matched (some (leaf (order_by ob))) h = tt
  build_where_raw-Matched (some (leaf (other x))) h = tt
  build_where_raw-Matched (some (nested c)) h = tt

any_Plain :
    (field : Bytes)
    → Plain field
    → {A : Type 0} (op close : Bytes) (print : A → Bytes) (vs : List A) → Plain op
    → Plain close
    → All (λ v. Plain (print v)) vs
    → Plain (group (bytes " OR ") (λ v. t_column field ++ (op ++ (print v ++ close))) vs)
unfolding marks
any_Plain field f op close print vs o c h =
    group-Plain (bytes " OR ") (λ v. t_column field ++ (op ++ (print v ++ close))) refl vs
      (All-map (λ v. Plain (print v)) _ vs
        (λ v p.
          Plain-append (t_column field) _ (column-Plain (bytes "T") field refl f)
            (Plain-append op _ o (Plain-append (print v) close p c)))
        h)

module _ {I : Type 0} (fmt : Printer I) (field : Bytes) (f : Plain field) where
  where_not-Matched : (o : Option (Value I)) → Unmarked fmt o → All Matched (where_not fmt field o)
  unfolding where_not marks
  where_not-Matched none h = tt
  where_not-Matched (some (leaf (pointer v))) h = tt
  where_not-Matched (some (leaf (text s))) h =
      (one_mark (bytes "T") field refl f (bytes " != ?") refl, tt)
  where_not-Matched (some (leaf (number n))) h = tt
  where_not-Matched (some (leaf (texts vs))) h =
      (list-Plain (bytes "T") field refl f (bytes " NOT IN ") (λ s. s) vs refl h, tt)
  where_not-Matched (some (leaf (numbers vs))) h = tt
  where_not-Matched (some (leaf (items vs))) h = (
    list-Plain (bytes "T") field refl f (bytes " NOT IN ") fmt.verb vs refl
        (All-map _ _ vs (λ v p. p.1) h),
    tt,
  )
  where_not-Matched (some (leaf (time_range tr))) h = tt
  where_not-Matched (some (leaf (moment m))) h = tt
  where_not-Matched (some (leaf (order_by ob))) h = tt
  where_not-Matched (some (leaf (other x))) h = tt
  where_not-Matched (some (nested c)) h = tt

  where_gt-Matched : (o : Option (Value I)) → Unmarked fmt o → All Matched (where_gt fmt field o)
  unfolding where_gt marks
  where_gt-Matched none h = tt
  where_gt-Matched (some (leaf (pointer v))) h = tt
  where_gt-Matched (some (leaf (text s))) h =
      (one_mark (bytes "T") field refl f (bytes " >= ?") refl, tt)
  where_gt-Matched (some (leaf (number n))) h = tt
  where_gt-Matched (some (leaf (texts vs))) h =
      (any_Plain field f (bytes " >= '") (bytes "'") (λ s. s) vs refl refl h, tt)
  where_gt-Matched (some (leaf (numbers vs))) h = tt
  where_gt-Matched (some (leaf (items vs))) h = (
    any_Plain field f (bytes " >= '") (bytes "'") fmt.verb vs refl refl
        (All-map _ _ vs (λ v p. p.1) h),
    tt,
  )
  where_gt-Matched (some (leaf (time_range tr))) h =
      (one_mark (bytes "T") field refl f (bytes " >= ?") refl, tt)
  where_gt-Matched (some (leaf (moment m))) h = tt
  where_gt-Matched (some (leaf (order_by ob))) h = tt
  where_gt-Matched (some (leaf (other x))) h = tt
  where_gt-Matched (some (nested c)) h = tt

  where_lt-Matched : (o : Option (Value I)) → Unmarked fmt o → All Matched (where_lt fmt field o)
  unfolding where_lt marks
  where_lt-Matched none h = tt
  where_lt-Matched (some (leaf (pointer v))) h = tt
  where_lt-Matched (some (leaf (text s))) h =
      (one_mark (bytes "T") field refl f (bytes " < ?") refl, tt)
  where_lt-Matched (some (leaf (number n))) h = tt
  where_lt-Matched (some (leaf (texts vs))) h =
      (any_Plain field f (bytes " < '") (bytes "'") (λ s. s) vs refl refl h, tt)
  where_lt-Matched (some (leaf (numbers vs))) h = tt
  where_lt-Matched (some (leaf (items vs))) h = (
    any_Plain field f (bytes " < '") (bytes "'") fmt.verb vs refl refl
        (All-map _ _ vs (λ v p. p.1) h),
    tt,
  )
  where_lt-Matched (some (leaf (time_range tr))) h = tt
  where_lt-Matched (some (leaf (moment m))) h =
      (one_mark (bytes "T") field refl f (bytes " < ?") refl, tt)
  where_lt-Matched (some (leaf (order_by ob))) h = tt
  where_lt-Matched (some (leaf (other x))) h = tt
  where_lt-Matched (some (nested c)) h = tt

  where_like-Matched :
      (o : Option (Value I)) → Unmarked fmt o → All Matched (where_like fmt field o)
  unfolding where_like marks
  where_like-Matched none h = tt
  where_like-Matched (some (leaf (pointer v))) h = tt
  where_like-Matched (some (leaf (text s))) h =
      (one_mark (bytes "T") field refl f (bytes " LIKE ?") refl, tt)
  where_like-Matched (some (leaf (number n))) h = tt
  where_like-Matched (some (leaf (texts vs))) h =
      (any_Plain field f (bytes " LIKE '%") (bytes "%'") (λ s. s) vs refl refl h, tt)
  where_like-Matched (some (leaf (numbers vs))) h = tt
  where_like-Matched (some (leaf (items vs))) h = (
    any_Plain field f (bytes " LIKE '%") (bytes "%'") fmt.verb vs refl refl
        (All-map _ _ vs (λ v p. p.1) h),
    tt,
  )
  where_like-Matched (some (leaf (time_range tr))) h = tt
  where_like-Matched (some (leaf (moment m))) h = tt
  where_like-Matched (some (leaf (order_by ob))) h = tt
  where_like-Matched (some (leaf (other x))) h = tt
  where_like-Matched (some (nested c)) h = tt

where_raw-Matched :
    {I : Type 0} (fmt : Printer I) (raw : Bytes) → Plain raw → All Matched (where_raw fmt raw)
unfolding where_raw marks
where_raw-Matched fmt [] h = tt
where_raw-Matched fmt (b ∷ bs) h = (
  Plain-append (bytes "(") ((b ∷ bs) ++ bytes ")") refl (Plain-append (b ∷ bs) (bytes ")") h refl),
  tt,
)

-- For any condition whose field, raw text and lists of values have no `?` in them: each text that it
-- hands to `Where` has as many marks `?` as arguments go with it; what the single values are does not
-- matter.
pub do_where-Matched :
    {I : Type 0} (fmt : Printer I) (v : Condition (Value I))
    → marks v.field ≡ 0
    → marks v.raw ≡ 0
    → Unmarked fmt v.is
    → Unmarked fmt v.not
    → Unmarked fmt v.gt
    → Unmarked fmt v.lt
    → Unmarked fmt v.like
    → All Matched (do_where fmt v)
unfolding do_where marks
do_where-Matched fmt v f raw is not gt lt like =
    All-append Matched (where_raw fmt v.raw) _ (where_raw-Matched fmt v.raw raw) (
      All-append Matched (build_where_raw fmt (bytes "T") v.field v.is) _
        (build_where_raw-Matched fmt (bytes "T") v.field refl f v.is is)
        (All-append Matched (build_where_raw fmt (bytes "T") v.field v.not) _
          (build_where_raw-Matched fmt (bytes "T") v.field refl f v.not not)
          (All-append Matched (where_not fmt v.field v.not) _
            (where_not-Matched fmt v.field f v.not not)
            (All-append Matched (where_gt fmt v.field v.gt) _
              (where_gt-Matched fmt v.field f v.gt gt)
              (All-append Matched (where_lt fmt v.field v.lt) _
                (where_lt-Matched fmt v.field f v.lt lt)
                (where_like-Matched fmt v.field f v.like like))))))
