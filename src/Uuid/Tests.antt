-- ===== src/Uuid/Tests.antt =====
-- UUIDs for the tests, and the theorems at them.
use wgo.Common.{ℕ, ◌+◌, ◌<◌, ◌≡◌, refl, some, Bytes, bytes, length, arith}
use wgo.Uuid.{
  remove_dashes, hex_value, parse_from, parse_digits, set_string, short_digits, shorten_value,
  uuid_value, shorten_uuid, index_from, long_value, hex_from, hex_text, hex_of_difference, group,
  lengthen_uuid,
}
use wgo.Uuid.Round.{lengthen_uuid-shorten_uuid}

program : Unit {0}
unfolding remove_dashes hex_value parse_from parse_digits set_string short_digits shorten_value
    uuid_value shorten_uuid index_from long_value hex_from hex_text hex_of_difference group
    lengthen_uuid
program = tt

abbrev dns : Bytes
dns = bytes "6BA7B810-9dad-11d1-80b4-00c04fd430c8"

abbrev dns_number : ℕ
dns_number = 0x6ba7b8109dad11d180b400c04fd430c8

dns_value : uuid_value dns ≡ some dns_number
unfolding program
dns_value = refl

dns_digits : length (hex_text dns_number) ≡ 8 + 24
unfolding program
dns_digits = refl

lengthen_uuid-shorten_uuid_example :
    (t : Bytes) × (l : Bytes) × (shorten_uuid dns ≡ some t)
    × (lengthen_uuid t ≡ some l)
    × (uuid_value l ≡ uuid_value dns)
lengthen_uuid-shorten_uuid_example =
    lengthen_uuid-shorten_uuid dns dns_number 8 dns_value dns_digits

abbrev zeros : Bytes
zeros = bytes "00000000-0dad-11d1-80b4-00c04fd430c8"

zeros_value : uuid_value zeros ≡ some 0xdad11d180b400c04fd430c8
unfolding program
zeros_value = refl

zeros_digits : length (hex_text 0xdad11d180b400c04fd430c8) < 24
unfolding program
zeros_digits = omega arith
