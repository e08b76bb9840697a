-- ===== src/Cache/Slot.antt =====
-- cache/bucket.go: `lookup` on a slot whose first seven entries are empty.
use wgo.Common.{
  ℕ, zero, suc, ◌≡◌, refl, ◌&&◌, Option, List, [], ◌∷◌, ◌++◌, Bytes, ◌==◌, replicate, arith,
}
use wgo.Cache.Bucket.{Entry, zero_entry, key_matches, entry_idx, lookup}

module _ {V : Type 0} where
  -- Seven empty entries and the one in the last place.
  abbrev pub last_only : Entry V → List (Entry V)
  last_only e = replicate 7 zero_entry ++ e ∷ []

  entry_idx-last_only : (e : Entry V) (h : ℕ) → entry_idx (last_only e) (suc h) ≡ 7
  unfolding entry_idx
  entry_idx-last_only e h = ground arith

  entry_idx-zero : (e : Entry V) → entry_idx (last_only e) 0 ≡ 0
  unfolding entry_idx
  entry_idx-zero e = refl

  -- The search ends on the last place, whatever stands there.
  pub lookup-last_only :
      (e : Entry V) (hash16 : ℕ) (key : Option Bytes)
      → lookup (last_only e) hash16 key ≡ (7, e.hash16 == hash16 && key_matches e.key key)
  unfolding lookup key_matches
  lookup-last_only e zero key = rw (entry_idx-zero e) (ground arith)
  lookup-last_only e (suc h) key = rw (entry_idx-last_only e h, lookup) (ground arith)
