-- ===== src/Uuid.antt =====
-- utils/uuid.go: the short form of a UUID. A `big.Int` is a natural number, or the difference of
-- two where it may be below 0.
pub mod Digits
pub mod Hex
pub mod Round
mod Tests
use wgo.Common.{
  lower, ℕ, zero, suc, ◌+◌, ◌-◌, ◌*◌, ◌/◌, ◌%◌, Bool, true, false, ◌&&◌, Option, none, some, List,
  [], ◌∷◌, ◌++◌, Bytes, bytes, ◌==◌, ltb, leb, if◌then◌else◌, length, get_or, take, drop, replicate,
}

abbrev pub alphabet : Bytes
alphabet = bytes "23456789ABCDEFGHJKLMNPQRSTUVWXYZabcdefghijkmnopqrstuvwxyz"

abbrev pub short_len : ℕ
short_len = 22

-- `strings.Replace(s, "-", "", -1)`
unfoldable pub remove_dashes : Bytes → Bytes
remove_dashes [] = []
remove_dashes (c ∷ cs) = if c == b'-' then remove_dashes cs else c ∷ remove_dashes cs

-- The value of a hexadecimal digit.
unfoldable pub hex_value : ℕ → Option ℕ
hex_value c =
    if leb b'0' c && leb c b'9'
    then some (c - 48)
    else if leb b'a' c && leb c b'f'
    then some (c - 87)
    else if leb b'A' c && leb c b'F'
    then some (c - 55)
    else none

unfoldable pub parse_from : ℕ → Bytes → Option ℕ
parse_from acc [] = some acc
parse_from acc (c ∷ cs) = elim (hex_value c) [ none ↦ none | some d ↦ parse_from (acc * 16 + d) cs ]

-- One digit at least.
unfoldable pub parse_digits : Bytes → Option ℕ
parse_digits [] = none
parse_digits (c ∷ cs) = parse_from 0 (c ∷ cs)

-- `big.Int.SetString` with base 16, for a text without a minus: none where it fails.
unfoldable pub set_string : Bytes → Option ℕ
set_string [] = none
set_string (c ∷ cs) = if c == b'+' then parse_digits cs else parse_digits (c ∷ cs)

-- The loop of `ShortenUUID`, the last digit first.
unfoldable pub short_digits : ℕ → ℕ → Bytes
short_digits zero n = []
short_digits (suc fuel) n = elim (n == 0) [
  | true ↦ []
  | false ↦ get_or alphabet (n % 57) 0 ∷ short_digits fuel (n / 57)
]

unfoldable pub shorten_value : ℕ → Bytes
shorten_value n =
    let ss = short_digits n n in ss ++ replicate (short_len - length ss) (get_or alphabet 0 0)

-- The number that a text stands for.
unfoldable pub uuid_value : Bytes → Option ℕ
uuid_value s = set_string (lower (remove_dashes s))

-- `ShortenUUID`; for a text that is no number, where the source goes on with an undefined value, it
-- is none.
unfoldable pub shorten_uuid : Bytes → Option Bytes
shorten_uuid s = elim (uuid_value s) [ none ↦ none | some n ↦ some (shorten_value n) ]

-- `strings.Index(alphabet, string(char))`
unfoldable pub index_from : ℕ → Bytes → ℕ → Option ℕ
index_from i [] char = none
index_from i (c ∷ cs) char = if c == char then some i else index_from (i + 1) cs char

-- The loop of `LengthenUUID`, from the last byte to the first; a byte that is not in the alphabet
-- counts as -1.
unfoldable pub long_value : Bytes → ℕ × ℕ
long_value [] = (0, 0)
long_value (char ∷ cs) =
    let (p, m) = long_value cs in
    elim (index_from 0 alphabet char) [
      | none ↦ (p * 57, m * 57 + 1)
      | some off ↦ (p * 57 + off, m * 57)
    ]

abbrev pub hex_digit : ℕ → ℕ
hex_digit d = if ltb d 10 then 48 + d else 87 + d

unfoldable pub hex_from : ℕ → ℕ → Bytes
hex_from zero n = []
hex_from (suc fuel) n = elim (n == 0) [
  | true ↦ []
  | false ↦ hex_from fuel (n / 16) ++ hex_digit (n % 16) ∷ []
]

-- `fmt.Sprintf("%x", uuInt)`
unfoldable pub hex_text : ℕ → Bytes
hex_text n = if n == 0 then b'0' ∷ [] else hex_from n n

unfoldable pub hex_of_difference : ℕ × ℕ → Bytes
hex_of_difference (p, m) = if leb m p then hex_text (p - m) else b'-' ∷ hex_text (m - p)

-- A text padded with zeros on the left.
abbrev pub pad_zero : ℕ → Bytes → Bytes
pad_zero width s = replicate (width - length s) b'0' ++ s

-- The groups of `LengthenUUID`; `b[:ll-24]` is out of range, a panic, for a text of less than 24
-- digits.
unfoldable pub group : Bytes → Option Bytes
group b =
    let ll = length b in
    if ltb ll 24
    then none
    else some (
        pad_zero 8 (take (ll - 24) b)
        ++ (bytes "-"
            ++ (pad_zero 4 (take 4 (drop (ll - 24) b))
                ++ (bytes "-"
                    ++ (pad_zero 4 (take 4 (drop (ll - 20) b))
                        ++ (bytes "-"
                            ++ (pad_zero 4 (take 4 (drop (ll - 16) b))
                                ++ (bytes "-" ++ pad_zero 12 (drop (ll - 12) b)))))))))

unfoldable pub lengthen_uuid : Bytes → Option Bytes
lengthen_uuid s = group (hex_of_difference (long_value s))
