-- ===== src/Cache/Bucket.antt =====
-- cache/bucket.go. A Go slice of bytes is an `Option Bytes` (`none` is nil), an `interface{}` an
-- `Option V`. `time.Now().Unix()` is the argument `now`, already cut to 32 bits by `uint32`.
use wgo.Common.{
  ℕ, zero, suc, ◌+◌, ◌-◌, ◌*◌, ◌/◌, ◌%◌, ◌^◌, Bool, true, false, ◌&&◌, ◌||◌, not, Option, none,
  some, List, Bytes, bytes_eq, ltb, leb, ◌==◌, if◌then◌else◌, length, get_or, set, replicate,
  window,
}
use wgo.Common.Int.{ℤ, pos, negsuc}

pub data CacheError : Type 0 where
  err_large_key err_large_entry err_not_found : CacheError

pub record Entry (V : Type 0) : Type 0 where
  pub key : Option Bytes
  pub value : Option V
  pub access_time : ℕ
  pub expire_at : ℕ
  pub hash16 : ℕ
  pub slot_id : ℕ

-- `entry{}`
abbrev pub zero_entry : {V : Type 0} → Entry V
zero_entry = record {
  key = none;
  value = none;
  access_time = 0;
  expire_at = 0;
  hash16 = 0;
  slot_id = 0;
}

pub record Bucket (V : Type 0) : Type 0 where
  pub id : ℕ
  pub slots : List (Entry V)
  pub entry_count : ℕ
  pub total_count : ℕ
  pub total_time : ℕ
  pub total_evacuate : ℕ
  pub total_expired : ℕ
  pub overwrites : ℕ

-- The bytes of a slice; nil has none.
abbrev pub to_bytes : Option Bytes → Bytes
to_bytes none = List.[]
to_bytes (some b) = b

-- `ent.key != nil && string(ent.key) == string(key)`
unfoldable pub key_matches : Option Bytes → Option Bytes → Bool
key_matches none key = false
key_matches (some k) key = bytes_eq k (to_bytes key)

-- `uint8(hashVal>>8) >> 4`
abbrev pub slot_of : ℕ → ℕ
slot_of hash = hash / 256 % 256 / 16

-- `uint16(hashVal >> 16)`
abbrev pub hash16_of : ℕ → ℕ
hash16_of hash = hash / 65536 % 65536

-- `expireAt`: zero unless `expireSeconds > 0`, and a 32-bit sum.
unfoldable pub expiry : ℕ → ℤ → ℕ
expiry now (pos zero) = 0
expiry now (pos (suc n)) = (now + suc n % 2 ^ 32) % 2 ^ 32
expiry now (negsuc n) = 0

module _ {V : Type 0} where
  unfoldable pub new_bucket : ℕ → Bucket V
  new_bucket id = record {
    id = id;
    slots = replicate 256 zero_entry;
    entry_count = 0;
    total_count = 0;
    total_time = 0;
    total_evacuate = 0;
    total_expired = 0;
    overwrites = 0;
  }

  -- The loop of `entryIdx`; the first argument is fuel.
  unfoldable pub search_idx : ℕ → List (Entry V) → ℕ → ℕ → ℕ → ℕ
  search_idx zero slot hash16 idx high = idx
  search_idx (suc fuel) slot hash16 idx high =
      let mid = (idx + high) / 2 in
      elim (ltb idx high) [
        | false ↦ idx
        | true ↦ elim (ltb ((get_or slot mid zero_entry).hash16) hash16) [
          | true ↦ search_idx fuel slot hash16 (mid + 1) high
          | false ↦ search_idx fuel slot hash16 idx mid
        ]
      ]

  unfoldable pub entry_idx : List (Entry V) → ℕ → ℕ
  unfolding search_idx
  entry_idx slot hash16 = search_idx (length slot) slot hash16 0 (length slot - 1)

  -- The loop of `lookup`; the first argument is the number of entries from `idx` on.
  unfoldable pub scan : ℕ → List (Entry V) → ℕ → Option Bytes → ℕ → ℕ × Bool
  scan zero slot hash16 key idx = (idx, false)
  scan (suc left) slot hash16 key idx =
      let ent = get_or slot idx zero_entry in
      elim (ent.hash16 == hash16) [
        | false ↦ (idx, false)
        | true ↦ elim (key_matches ent.key key || idx == length slot - 1) [
          | true ↦ (idx, key_matches ent.key key)
          | false ↦ scan left slot hash16 key (idx + 1)
        ]
      ]

  unfoldable pub lookup : List (Entry V) → ℕ → Option Bytes → ℕ × Bool
  unfolding entry_idx scan
  lookup slot hash16 key =
      let idx = entry_idx slot hash16 in scan (length slot - idx) slot hash16 key idx

  -- `bkt.slots[start : start+8]`
  abbrev pub slot_at : Bucket V → ℕ → List (Entry V)
  slot_at bkt start = window 8 start bkt.slots

  -- Both branches on `match` are empty in the source.
  unfoldable pub set_entry :
      ℕ → Bucket V → Option Bytes → Option V → ℕ → ℤ → Bucket V × Option CacheError
  set_entry now bkt key value hash expire_seconds =
      if ltb 65535 (length (to_bytes key))
      then (bkt, some CacheError.err_large_key)
      else (let start = slot_of hash * 8 in
          let entry : Entry V = record {
            key = key;
            value = value;
            access_time = 0;
            expire_at = expiry now expire_seconds;
            hash16 = hash16_of hash;
            slot_id = slot_of hash;
          } in
          let (offset, _) = lookup (slot_at bkt start) (hash16_of hash) key in
          (record bkt { slots = set bkt.slots (start + offset) entry }, none))

  -- `expireAt != 0 && expireAt <= now`
  abbrev pub is_expired : ℕ → Entry V → Bool
  is_expired now entry = not (entry.expire_at == 0) && leb entry.expire_at now

  unfoldable pub get_entry :
      ℕ → Bucket V → Option Bytes → ℕ → Bucket V × Option V × Option CacheError
  get_entry now bkt key hash =
      if ltb 65535 (length (to_bytes key))
      then (bkt, none, some CacheError.err_large_key)
      else (let start = slot_of hash * 8 in
          let (offset, match) = lookup (slot_at bkt start) (hash16_of hash) key in
          let entry = get_or bkt.slots (start + offset) zero_entry in
          if match
          then (if is_expired now entry
              then (
                record bkt { total_expired = (bkt.total_expired + 1) % 2 ^ 64 },
                none,
                some CacheError.err_not_found,
              )
              else (bkt, entry.value, none))
          else (bkt, none, some CacheError.err_not_found))

  -- The stub returns its zero results.
  unfoldable pub ttl_entry : Bucket V → Option Bytes → ℕ → ℕ × Option CacheError
  ttl_entry bkt key hash = (0, none)

  -- The named result `affected` is never assigned.
  unfoldable pub del_entry : Bucket V → Option Bytes → ℕ → Bucket V × Bool
  del_entry bkt key hash =
      if ltb 65535 (length (to_bytes key))
      then (bkt, false)
      else (let start = slot_of hash * 8 in
          let (offset, match) = lookup (slot_at bkt start) (hash16_of hash) key in
          if match
          then (record bkt { slots = set bkt.slots (start + offset) zero_entry }, false)
          else (bkt, false))

  unfoldable pub reset_statistics : Bucket V → Bucket V
  reset_statistics bkt = record bkt { total_evacuate = 0; total_expired = 0; overwrites = 0 }
