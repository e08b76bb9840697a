-- ===== src/Words.antt =====
-- utils/words.go: plural forms. A slice out of range, which panics, is `none`.
pub mod Dictionary
pub mod Forms
mod Tests
use wgo.Common.{
  ℕ, ◌-◌, Bool, true, false, not, ◌&&◌, ◌||◌, Option, none, some, List, [], ◌∷◌, ◌++◌, Bytes, bytes,
  bytes_eq, ◌==◌, ltb, if◌then◌else◌, length, take, drop,
}
use wgo.Words.Dictionary.{plural_dictionary, singular_dictionary}

-- Reading a `map[string]string`: a missing key reads as the empty string.
unfoldable pub lookup : List (Bytes × Bytes) → Bytes → Bytes
lookup [] w = []
lookup ((k, v) ∷ rest) w = if bytes_eq k w then v else lookup rest w

unfoldable pub in_vowels : ℕ → Bool
in_vowels b = b == b'a' || b == b'e' || b == b'i' || b == b'o' || b == b'u'

-- `w[len(w)-n:]`
unfoldable pub tail : ℕ → Bytes → Option Bytes
tail n w = if ltb (length w) n then none else some (drop (length w - n) w)

-- `string(w[len(w)-n:]) == t` and what follows it.
unfoldable pub tail_is : {A : Type 0} → ℕ → Bytes → Bytes → (Bool → Option A) → Option A
tail_is n w t k = elim (tail n w) [ none ↦ none | some e ↦ k (bytes_eq e t) ]

-- `w[len(w)-n]` as a byte, and what follows it.
unfoldable pub byte_at : {A : Type 0} → ℕ → Bytes → (ℕ → Option A) → Option A
byte_at n w k = elim (tail n w) [ none ↦ none | some e ↦ elim e [ [] ↦ none | b ∷ bs ↦ k b ] ]

-- The exceptions, for a word that does not end in "s".
unfoldable pub exceptions : Bytes → Option Bool
exceptions test = tail_is 1 test (bytes "e") λ e. tail_is 1 test (bytes "y") λ y.
    elim (not e || not y) [
      | true ↦ some false
      | false ↦ tail_is 2 test (bytes "ch") λ ch. tail_is 2 test (bytes "sh") λ sh.
          elim (ch || sh) [
            | true ↦ some false
            | false ↦ tail_is 3 test (bytes "nes") λ nes. elim nes [
              | true ↦ some false
              | false ↦ tail_is 3 test (bytes "ius") λ ius. elim ius [
                | true ↦ some false
                | false ↦ some (bytes_eq (lookup plural_dictionary test) [])
              ]
            ]
          ]
    ]

unfoldable pub already_pluralized : Bytes → Option Bool
already_pluralized test = elim (length test == 1) [
  | true ↦ some false
  | false ↦ elim (bytes_eq (lookup singular_dictionary test) []) [
    | false ↦ some true
    | true ↦ byte_at 1 test λ b. elim (b == b's') [ true ↦ some true | false ↦ exceptions test ]
  ]
]

-- `w[:len(w)-n]`
abbrev pub cut : ℕ → Bytes → Bytes
cut n w = take (length w - n) w

-- `root + suffix` of a word that ends in "s".
unfoldable pub plural_of_s : Bytes → Option Bytes
plural_of_s w = byte_at 2 w λ c. elim (in_vowels c) [
  | true ↦
      tail_is 3 w (bytes "ius") λ ius. elim ius [
        | true ↦ some (cut 2 w ++ bytes "i")
        | false ↦ some (cut 1 w ++ bytes "ses")
      ]
  | false ↦ some (w ++ bytes "es")
]

-- `root + suffix` of the other words.
unfoldable pub plural_of_other : Bytes → Option Bytes
plural_of_other w = tail_is 2 w (bytes "ch") λ ch.
    tail_is 2 w (bytes "sh")
      λ sh. elim (ch || sh) [ true ↦ some (w ++ bytes "es") | false ↦ some (w ++ bytes "s") ]

-- The chain of tests on the last letters.
unfoldable pub root_and_suffix : Bytes → Option Bytes
root_and_suffix w = byte_at 1 w λ b. byte_at 2 w λ c. elim (b == b'y' && not (in_vowels c)) [
  | true ↦ some (cut 1 w ++ bytes "ies")
  | false ↦ elim (b == b's') [ true ↦ plural_of_s w | false ↦ plural_of_other w ]
]

-- The "sanity check"
unfoldable pub unless_pluralized : Bytes → Bytes → Option Bytes
unless_pluralized w plural = elim (already_pluralized w) [
  | none ↦ none
  | some done ↦ elim done [ true ↦ some w | false ↦ some plural ]
]

-- The fixed endings -z, -ex, -ix and -us, and the general rule.
unfoldable pub pluralize_ending : Bytes → Option Bytes
pluralize_ending w = tail_is 1 w (bytes "z") λ z. elim z [
  | true ↦ some (cut 1 w ++ bytes "zes")
  | false ↦ tail_is 2 w (bytes "ex") λ ex. elim ex [
    | true ↦ some (cut 2 w ++ bytes "ices")
    | false ↦ tail_is 2 w (bytes "ix") λ ix. elim ix [
      | true ↦ some (cut 2 w ++ bytes "ices")
      | false ↦ tail_is 2 w (bytes "us") λ us. elim us [
        | true ↦ some (cut 2 w ++ bytes "uses")
        | false ↦ elim (root_and_suffix w) [
          | none ↦ none
          | some plural ↦ unless_pluralized w plural
        ]
      ]
    ]
  ]
]

unfoldable pub pluralize : Bytes → Option Bytes
pluralize [] = some (bytes "Singular cannot be empty")
pluralize (b ∷ bs) =
    let w = b ∷ bs in
    elim (length w == 1) [
      | true ↦ some (w ++ bytes "s")
      | false ↦ elim (bytes_eq (lookup plural_dictionary w) []) [
        | false ↦ some (lookup plural_dictionary w)
        | true ↦ elim (ltb (length w) 3) [
          | true ↦ pluralize_ending w
          | false ↦
              tail_is 3 w (bytes "sis") λ sis. elim sis [
                | true ↦ some (cut 3 w ++ bytes "ses")
                | false ↦ pluralize_ending w
              ]
        ]
      ]
    ]
