-- ===== src/Words/Tests.antt =====
-- utils/words.go: runs at concrete words.
use wgo.Common.{◌≡◌, refl, none, some, bytes, bytes_eq}
use wgo.Words.{
  lookup, in_vowels, tail, tail_is, byte_at, exceptions, already_pluralized, plural_of_s,
  plural_of_other, root_and_suffix, unless_pluralized, pluralize_ending, pluralize,
}

program : Unit {0}
unfolding lookup in_vowels tail tail_is byte_at exceptions already_pluralized plural_of_s
    plural_of_other root_and_suffix unless_pluralized pluralize_ending pluralize bytes_eq
program = tt

pluralize_dolly : pluralize (bytes "dolly") ≡ some (bytes "dollies")
unfolding program
pluralize_dolly = refl

pluralize_box : pluralize (bytes "box") ≡ some (bytes "boxs")
unfolding program
pluralize_box = refl

pluralize_as : pluralize (bytes "as") ≡ none
unfolding program
pluralize_as = refl

pluralize_class : pluralize (bytes "class") ≡ some (bytes "class")
unfolding program
pluralize_class = refl
