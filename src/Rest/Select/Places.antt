-- ===== src/Rest/Select/Places.antt =====
-- SetConditions in rest/model.go: the places of the conditions that it appends.
use wgo.Common.{
  ℕ, suc, ◌+◌, ◌<◌, ◌≡◌, ap, ◌∙◌, sym, inl, inr, Bool, true, Option, none, some, List, [], ◌∷◌,
  ◌++◌, Bytes, bytes_eq, bytes_eq_refl, All, length, get_or, set, get_or-set_self, get_or-set_ne,
  ◌==◌, eq_of_==, ne_of_==, if◌then◌else◌, Bool-cases, Option-cases, arith,
}
use mathlib.Core.Path.{subst}
use wgo.Rest.{Condition, Value, get_condition, get_condition_from}
use wgo.Rest.Select.{Chosen, append, change, keep_if, rename_if}

module _ {I : Type 0} where
  abbrev pub Found : List (Option (Condition (Value I))) → Bytes → ℕ → Condition (Value I) → Type 0
  Found cs k i con = (get_or cs i none ≡ some con) × (i < length cs) × (bytes_eq con.field k ≡ true)

  get_condition_from-Found :
      (n : ℕ) (cs : List (Option (Condition (Value I)))) (k : Bytes) (i : ℕ)
      (con : Condition (Value I))
      → get_condition_from n cs k ≡ some (i, con)
      → (j : ℕ) × (i ≡ n + j) × Found cs k j con
  unfolding get_condition_from
  get_condition_from-Found n [] k i con e = absurd (cc)
  get_condition_from-Found n (none ∷ cs) k i con e =
      let (j, at, found) = get_condition_from-Found (n + 1) cs k i con e in
      (suc j, omega (arith, at), (found.0, omega (arith, found.1), found.2))
  get_condition_from-Found n (some c ∷ cs) k i con e = elim (Bool-cases (bytes_eq c.field k)) [
    | inl same ↦
        let e' : ◌≡◌ {A = Option (ℕ × Condition (Value I))} (some (n, c)) (some (i, con)) =
          ap (λ b. if b then some (n, c) else get_condition_from (n + 1) cs k) (sym same) ∙ e in
        (0, ground arith, (ground arith, omega arith, ground arith))
    | inr other ↦
        let e' : get_condition_from (n + 1) cs k ≡ some (i, con) =
          ap (λ b. if b then some (n, c) else get_condition_from (n + 1) cs k) (sym other) ∙ e in
        let (j, at, found) = get_condition_from-Found (n + 1) cs k i con e' in
        (suc j, omega (arith, at), (found.0, omega (arith, found.1), found.2))
  ]

  pub get_condition-Found :
      (cs : List (Option (Condition (Value I)))) (k : Bytes) (i : ℕ) (con : Condition (Value I))
      → get_condition cs k ≡ some (i, con)
      → Found cs k i con
  unfolding get_condition
  get_condition-Found cs k i con e =
      let (j, at, found) = get_condition_from-Found 0 cs k i con e in
      let same : j ≡ i = omega (arith, at) in subst (λ n. Found cs k n con) same found

module _ {I : Type 0} (P : Condition (Value I) → Type 0) where
  -- What stands at the place is a condition with `P`.
  abbrev pub Ok : List (Option (Condition (Value I))) → ℕ → Type 0
  Ok given i = (con : Condition (Value I)) × (get_or given i none ≡ some con) × P con

  abbrev pub Chose : Chosen I → Type 0
  Chose s = All (Ok s.given) s.places

  All-snoc : (Q : ℕ → Type 0) (is : List ℕ) (i : ℕ) → All Q is → Q i → All Q (is ++ i ∷ [])
  All-snoc Q [] i h q = (q, tt)
  All-snoc Q (j ∷ is) i h q = (h.0, All-snoc Q is i h.1 q)

  Ok-set :
      (given : List (Option (Condition (Value I)))) (i : ℕ) (con : Condition (Value I))
      → i < length given
      → P con
      → (j : ℕ) → Ok given j
      → Ok (set given i (some con)) j
  Ok-set given i con lt p j (old, at, ok) = elim (Bool-cases (i == j)) [
    | inl same ↦
        let e = eq_of_== i j same in
        (
          con,
          subst (λ n. get_or (set given i (some con)) n none ≡ some con) e
              (get_or-set_self given i (some con) none lt),
          p,
        )
    | inr other ↦ (old, get_or-set_ne given i j (some con) none (ne_of_== i j other) ∙ at, ok)
  ]

  All-Ok-set :
      (given : List (Option (Condition (Value I)))) (i : ℕ) (con : Condition (Value I))
      → i < length given
      → P con
      → (is : List ℕ) → All (Ok given) is
      → All (Ok (set given i (some con))) is
  All-Ok-set given i con lt p [] h = tt
  All-Ok-set given i con lt p (j ∷ is) h =
      (Ok-set given i con lt p j h.0, All-Ok-set given i con lt p is h.1)

  pub change-Chose :
      (i : ℕ) (con : Condition (Value I)) (s : Chosen I)
      → i < length s.given
      → P con
      → Chose s
      → Chose (change i con s)
  change-Chose i con s lt p h =
      All-snoc (Ok (set s.given i (some con))) s.places i (All-Ok-set s.given i con lt p s.places h)
        (con, get_or-set_self s.given i (some con) none lt, p)

  pub append-Chose :
      (i : ℕ) (con : Condition (Value I)) (s : Chosen I)
      → get_or s.given i none ≡ some con
      → P con
      → Chose s
      → Chose (append i s)
  append-Chose i con s at p h = All-snoc (Ok s.given) s.places i h (con, at, p)

  pub keep_if-Chose :
      (test : Condition (Value I) → Bool) (k : Bytes) (s : Chosen I)
      → ((con : Condition (Value I)) → bytes_eq con.field k ≡ true → test con ≡ true → P con)
      → Chose s
      → Chose (keep_if test (get_condition s.given k) s)
  keep_if-Chose test k s p h = elim (Option-cases (get_condition s.given k)) [
    | inl missing ↦ rw missing h
    | inr (pair, at) ↦
        let found = get_condition-Found s.given k pair.0 pair.1 at in
        elim (Bool-cases (test pair.1)) [
          | inl passes ↦
              rw (at, passes) (append-Chose pair.0 pair.1 s found.0 (p pair.1 found.2 passes) h)
          | inr fails ↦ rw (at, fails) h
        ]
  ]

  pub rename_if-Chose :
      (field k : Bytes) (test : Condition (Value I) → Bool) (s : Chosen I)
      → ((con : Condition (Value I)) → bytes_eq con.field field ≡ true → P con)
      → Chose s
      → Chose (rename_if field test (get_condition s.given k) s)
  rename_if-Chose field k test s p h = elim (Option-cases (get_condition s.given k)) [
    | inl missing ↦ rw missing h
    | inr (pair, at) ↦
        let found = get_condition-Found s.given k pair.0 pair.1 at in
        elim (Bool-cases (test pair.1)) [
          | inl passes ↦
              rw (at, passes)
                (change-Chose pair.0 (record pair.1 { field = field }) s found.1
                  (p _ (bytes_eq_refl field)) h)
          | inr fails ↦ rw (at, fails) h
        ]
  ]
