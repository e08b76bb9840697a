-- ===== src/Words/Dictionary.antt =====
-- utils/words.go: the two dictionaries, in the order of the source.
use wgo.Common.{List, [], ◌∷◌, Bytes, bytes}

abbrev pub plural_dictionary : List (Bytes × Bytes)
plural_dictionary =
    (bytes "is", bytes "are")
    ∷ (bytes "analysis", bytes "analyses")
    ∷ (bytes "alumnus", bytes "alumni")
    ∷ (bytes "alumnae", bytes "alumni")
    ∷ (bytes "atlas", bytes "atlases")
    ∷ (bytes "appendix", bytes "appendices")
    ∷ (bytes "barrack", bytes "barracks")
    ∷ (bytes "beef", bytes "beefs")
    ∷ (bytes "brother", bytes "brothers")
    ∷ (bytes "cafe", bytes "cafes")
    ∷ (bytes "corpus", bytes "corpuses")
    ∷ (bytes "cow", bytes "cows")
    ∷ (bytes "ganglion", bytes "ganglions")
    ∷ (bytes "genus", bytes "genera")
    ∷ (bytes "graffito", bytes "graffiti")
    ∷ (bytes "loaf", bytes "loaves")
    ∷ (bytes "money", bytes "monies")
    ∷ (bytes "mongoose", bytes "mongooses")
    ∷ (bytes "move", bytes "moves")
    ∷ (bytes "mythos", bytes "mythoi")
    ∷ (bytes "niche", bytes "niches")
    ∷ (bytes "numen", bytes "numina")
    ∷ (bytes "octopus", bytes "octopuses")
    ∷ (bytes "opus", bytes "opuses")
    ∷ (bytes "ox", bytes "oxen")
    ∷ (bytes "penis", bytes "penises")
    ∷ (bytes "vagina", bytes "vaginas")
    ∷ (bytes "sex", bytes "sexes")
    ∷ (bytes "testis", bytes "testes")
    ∷ (bytes "turf", bytes "turfs")
    ∷ (bytes "tooth", bytes "teeth")
    ∷ (bytes "foot", bytes "feet")
    ∷ (bytes "cactus", bytes "cacti")
    ∷ (bytes "child", bytes "children")
    ∷ (bytes "criterion", bytes "criteria")
    ∷ (bytes "news", bytes "news")
    ∷ (bytes "datum", bytes "data")
    ∷ (bytes "deer", bytes "deer")
    ∷ (bytes "echo", bytes "echoes")
    ∷ (bytes "elf", bytes "elves")
    ∷ (bytes "embargo", bytes "embargoes")
    ∷ (bytes "foe", bytes "foes")
    ∷ (bytes "focus", bytes "foci")
    ∷ (bytes "fungus", bytes "fungi")
    ∷ (bytes "goose", bytes "geese")
    ∷ (bytes "hero", bytes "heroes")
    ∷ (bytes "hoof", bytes "hooves")
    ∷ (bytes "index", bytes "indices")
    ∷ (bytes "knife", bytes "knives")
    ∷ (bytes "leaf", bytes "leaves")
    ∷ (bytes "life", bytes "lives")
    ∷ (bytes "man", bytes "men")
    ∷ (bytes "mouse", bytes "mice")
    ∷ (bytes "nucleus", bytes "nuclei")
    ∷ (bytes "person", bytes "people")
    ∷ (bytes "phenomenon", bytes "phenomena")
    ∷ (bytes "potato", bytes "potatoes")
    ∷ (bytes "self", bytes "selves")
    ∷ (bytes "syllabus", bytes "syllabi")
    ∷ (bytes "tomato", bytes "tomatoes")
    ∷ (bytes "torpedo", bytes "torpedoes")
    ∷ (bytes "veto", bytes "vetoes")
    ∷ (bytes "woman", bytes "women")
    ∷ (bytes "zero", bytes "zeroes")
    ∷ []

abbrev pub singular_dictionary : List (Bytes × Bytes)
singular_dictionary =
    (bytes "are", bytes "is")
    ∷ (bytes "analyses", bytes "analysis")
    ∷ (bytes "alumni", bytes "alumnus")
    ∷ (bytes "genii", bytes "genius")
    ∷ (bytes "data", bytes "datum")
    ∷ (bytes "atlases", bytes "atlas")
    ∷ (bytes "appendices", bytes "appendix")
    ∷ (bytes "barracks", bytes "barrack")
    ∷ (bytes "beefs", bytes "beef")
    ∷ (bytes "brothers", bytes "brother")
    ∷ (bytes "cafes", bytes "cafe")
    ∷ (bytes "corpuses", bytes "corpus")
    ∷ (bytes "cows", bytes "cow")
    ∷ (bytes "ganglions", bytes "ganglion")
    ∷ (bytes "genera", bytes "genus")
    ∷ (bytes "graffiti", bytes "graffito")
    ∷ (bytes "loaves", bytes "loaf")
    ∷ (bytes "monies", bytes "money")
    ∷ (bytes "mongooses", bytes "mongoose")
    ∷ (bytes "moves", bytes "move")
    ∷ (bytes "mythoi", bytes "mythos")
    ∷ (bytes "niches", bytes "niche")
    ∷ (bytes "numina", bytes "numen")
    ∷ (bytes "octopuses", bytes "octopus")
    ∷ (bytes "opuses", bytes "opus")
    ∷ (bytes "oxen", bytes "ox")
    ∷ (bytes "penises", bytes "penis")
    ∷ (bytes "vaginas", bytes "vagina")
    ∷ (bytes "sexes", bytes "sex")
    ∷ (bytes "testes", bytes "testis")
    ∷ (bytes "turfs", bytes "turf")
    ∷ (bytes "teeth", bytes "tooth")
    ∷ (bytes "feet", bytes "foot")
    ∷ (bytes "cacti", bytes "cactus")
    ∷ (bytes "children", bytes "child")
    ∷ (bytes "criteria", bytes "criterion")
    ∷ (bytes "news", bytes "news")
    ∷ (bytes "deer", bytes "deer")
    ∷ (bytes "echoes", bytes "echo")
    ∷ (bytes "elves", bytes "elf")
    ∷ (bytes "embargoes", bytes "embargo")
    ∷ (bytes "foes", bytes "foe")
    ∷ (bytes "foci", bytes "focus")
    ∷ (bytes "fungi", bytes "fungus")
    ∷ (bytes "geese", bytes "goose")
    ∷ (bytes "heroes", bytes "hero")
    ∷ (bytes "hooves", bytes "hoof")
    ∷ (bytes "indices", bytes "index")
    ∷ (bytes "knifes", bytes "knife")
    ∷ (bytes "leaves", bytes "leaf")
    ∷ (bytes "lives", bytes "life")
    ∷ (bytes "men", bytes "man")
    ∷ (bytes "mice", bytes "mouse")
    ∷ (bytes "nuclei", bytes "nucleus")
    ∷ (bytes "people", bytes "person")
    ∷ (bytes "phenomena", bytes "phenomenon")
    ∷ (bytes "potatoes", bytes "potato")
    ∷ (bytes "selves", bytes "self")
    ∷ (bytes "syllabi", bytes "syllabus")
    ∷ (bytes "tomatoes", bytes "tomato")
    ∷ (bytes "torpedoes", bytes "torpedo")
    ∷ (bytes "vetoes", bytes "veto")
    ∷ (bytes "women", bytes "woman")
    ∷ (bytes "zeroes", bytes "zero")
    ∷ []
