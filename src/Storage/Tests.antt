-- ===== src/Storage/Tests.antt =====
-- storage/lock.go: the theorems at a store of one node that keeps one key.
use wgo.Common.{ℕ, ◌≡◌, ◌≢◌, refl, Bool, Option, none, some, [], ◌∷◌, Bytes, bytes, if◌then◌else◌}
use wgo.Storage.{
  Nodes, Storage, got, locked, get_lock, storage_get, storage_delete, release_lock, run_pending,
}
use wgo.Storage.Locking.{get_lock-refused}

-- A write only where the key is absent fails when a value is there.
abbrev put_one : Option Bytes → Bytes → Bool → Option Bytes × Option ℕ
put_one none val absent = (some val, none)
put_one (some old) val absent = if absent then (some old, some 1) else (some val, none)

abbrev one_node : Nodes (Option Bytes) ℕ
one_node = record {
  node_get = λ n i key. n;
  node_get_set = λ n i key val. (some val, got n);
  node_put = λ n i key val absent. put_one n val absent;
  node_delete = λ n i key. none;
}

abbrev hash : Bytes → ℕ
hash key = 0

abbrev show_time : ℕ → Bytes
show_time ts = ts ∷ []

abbrev stamp_of : Bytes → ℕ
stamp_of [] = 0
stamp_of (x ∷ xs) = x

-- The lock is held.
abbrev held : Storage (Option Bytes)
held = record { nodes = some (bytes "7,a"); pending = [] }

key_ne_nil : bytes "k" ≢ []
key_ne_nil = cc

get_lock-refused_example :
    get_lock one_node hash show_time stamp_of 9 (bytes "b") (bytes "k") held
    ≡ (held, locked (bytes "b"))
get_lock-refused_example =
    get_lock-refused one_node hash show_time stamp_of 9 (bytes "b") (bytes "k") held 1 key_ne_nil
      refl

-- The lock of another holder is deleted.
release_run :
    (run_pending one_node hash (release_lock one_node hash held (bytes "k")).0).nodes ≡ none
unfolding release_lock storage_get storage_delete run_pending
release_run = refl
