-- ===== src/Cache/Refine.antt =====
-- cache/bucket.go: the operations against the sixteen cells of a bucket.
use wgo.Common.{
  ℕ, ◌+◌, ◌*◌, ◌%◌, ◌^◌, ◌≡◌, refl, ◌<◌, Bool, false, ◌&&◌, Option, none, some, Bytes, ◌==◌, arith,
  length, ltb, if◌then◌else◌,
}
use wgo.Common.Int.{ℤ}
use wgo.Cache.Bucket.{
  Entry, Bucket, CacheError, err_not_found, zero_entry, slot_at, slot_of, hash16_of, key_matches,
  to_bytes, lookup, expiry, is_expired, set_entry, get_entry, del_entry,
}
use wgo.Cache.Slot.{lookup-last_only}
use wgo.Cache.Direct.{cell, IsDirect, write}

abbrev pub is_large : Option Bytes → Bool
is_large key = ltb 65535 (length (to_bytes key))

pub slot_of-lt : (hash : ℕ) → slot_of hash < 16
slot_of-lt hash = omega arith

module _ {V : Type 0} where
  -- The cell stores this very key under this very hash.
  abbrev pub holds : Entry V → ℕ → Option Bytes → Bool
  holds e hash key = e.hash16 == hash16_of hash && key_matches e.key key

  abbrev pub new_entry : ℕ → Option Bytes → Option V → ℕ → ℤ → Entry V
  new_entry now key value hash expire_seconds = record {
    key = key;
    value = value;
    access_time = 0;
    expire_at = expiry now expire_seconds;
    hash16 = hash16_of hash;
    slot_id = slot_of hash;
  }

  lookup-slot_at :
      (b : Bucket V) (hash : ℕ) (key : Option Bytes)
      → IsDirect b
      → lookup (slot_at b (slot_of hash * 8)) (hash16_of hash) key
        ≡ (7, holds (cell b (slot_of hash)) hash key)
  lookup-slot_at b hash key d =
      rw (d.direct (slot_of hash) (slot_of-lt hash)) (lookup-last_only _ (hash16_of hash) key)

  pub set_entry-write :
      (now : ℕ) (b : Bucket V) (key : Option Bytes) (value : Option V) (hash : ℕ) (ex : ℤ)
      → IsDirect b
      → is_large key ≡ false
      → set_entry now b key value hash ex
        ≡ (write b (slot_of hash) (new_entry now key value hash ex), none)
  unfolding set_entry
  set_entry-write now b key value hash ex d small = rw (small, lookup-slot_at b hash key d) refl

  -- What `get` answers from a cell.
  unfoldable pub read_cell :
      ℕ → Bucket V → Option Bytes → ℕ → Bucket V × Option V × Option CacheError
  read_cell now b key hash =
      let e = cell b (slot_of hash) in
      if holds e hash key
      then (if is_expired now e
          then (
            record b { total_expired = (b.total_expired + 1) % 2 ^ 64 },
            none,
            some err_not_found,
          )
          else (b, e.value, none))
      else (b, none, some err_not_found)

  pub get_entry-read_cell :
      (now : ℕ) (b : Bucket V) (key : Option Bytes) (hash : ℕ)
      → IsDirect b
      → is_large key ≡ false
      → get_entry now b key hash ≡ read_cell now b key hash
  unfolding get_entry read_cell
  get_entry-read_cell now b key hash d small = rw (small, lookup-slot_at b hash key d) refl

  pub del_entry-write :
      (b : Bucket V) (key : Option Bytes) (hash : ℕ)
      → IsDirect b
      → is_large key ≡ false
      → del_entry b key hash ≡ (
          if holds (cell b (slot_of hash)) hash key
          then (write b (slot_of hash) zero_entry, false)
          else (b, false))
  unfolding del_entry
  del_entry-write b key hash d small = rw (small, lookup-slot_at b hash key d) refl
