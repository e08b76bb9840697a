-- ===== src/Storage.antt =====
-- storage/storage.go and storage/lock.go: the storage over its nodes, and the lock kept in it. The
-- nodes are caches behind an interface, `Nodes`; the choice of a node by `Hash`, the decimal form of
-- a time and the reading of a stored time are parameters.
pub mod Locking
mod Tests
use wgo.Common.{
  ℕ, zero, suc, ◌+◌, Bool, true, false, Option, none, some, List, [], ◌∷◌, ◌++◌, Bytes, ltb,
  bytes_eq, if◌then◌else◌,
}

pub data GetSetReply (E : Type 0) : Type 0 where
  got : Option Bytes → GetSetReply E
  failed : E → GetSetReply E

-- `core.Cache` of all nodes, each operation at the index of a node; the flag of `put` asks for a
-- write only where the key is absent.
pub record Nodes (N E : Type 0) : Type 0 where
  pub node_get : N → ℕ → Bytes → Option Bytes
  pub node_get_set : N → ℕ → Bytes → Bytes → N × GetSetReply E
  pub node_put : N → ℕ → Bytes → Bytes → Bool → N × Option E
  pub node_delete : N → ℕ → Bytes → N

-- The state of the nodes, and the deletions that have been started with `go`.
pub record Storage (N : Type 0) : Type 0 where
  pub nodes : N
  pub pending : List (ℕ × Bytes)

-- What `GetLock` returns: the checksum, the error of the storage, or that the tries are over.
pub data LockReply (E : Type 0) : Type 0 where
  locked : Bytes → LockReply E
  broken : E → LockReply E
  refused : LockReply E
  panicked : LockReply E

-- `fmt.Sprint(ts, ",", cs)`
abbrev pub lock_value : (ℕ → Bytes) → ℕ → Bytes → Bytes
lock_value show_time ts cs = show_time ts ++ b',' ∷ cs

module _ {N E : Type 0} (b : Nodes N E) (hash : Bytes → ℕ) where
  unfoldable pub storage_get : Storage N → Bytes → Option Bytes
  storage_get s [] = none
  storage_get s (x ∷ xs) = b.node_get s.nodes (hash (x ∷ xs)) (x ∷ xs)

  -- The loop `for tried < 5`, which stops at the first success and forgets the last error.
  unfoldable pub put_tries : ℕ → N → ℕ → Bytes → Bytes → Bool → N
  put_tries zero n i key val absent = n
  put_tries (suc left) n i key val absent =
      let (n', err) = b.node_put n i key val absent in
      elim err [ none ↦ n' | some e ↦ put_tries left n' i key val absent ]

  -- `none` is the panic of `Hash` on an empty key; the error is always nil.
  unfoldable pub storage_put : Storage N → Bytes → Bytes → Bool → Option (Storage N × Option E)
  storage_put s [] val absent = none
  storage_put s (x ∷ xs) val absent =
      let key = x ∷ xs in
      some (record s { nodes = put_tries 5 s.nodes (hash key) key val absent }, none)

  unfoldable pub storage_delete : Storage N → Bytes → Storage N
  storage_delete s key = record s { pending = s.pending ++ (hash key, key) ∷ [] }

  -- A started deletion runs.
  unfoldable pub run_pending : Storage N → Storage N
  run_pending s = elim s.pending [
    | [] ↦ s
    | d ∷ rest ↦ record { nodes = b.node_delete s.nodes d.0 d.1; pending = rest }
  ]

  module _ (show_time : ℕ → Bytes) (stamp_of : Bytes → ℕ) where
    -- The branch for a lock that is over its time, `next` being the rest of the loop.
    unfoldable pub take_over :
        Storage N
        → Bytes
        → Bytes
        → Bytes
        → Bytes
        → (Storage N → Storage N × LockReply E)
        → Storage N × LockReply E
    take_over s key val cs old next =
        let (n, reply) = b.node_get_set s.nodes (hash key) key val in
        let s' = record s { nodes = n } in
        elim reply [
          | failed e ↦ (s', broken e)
          | got g ↦ elim g [
            | none ↦ (s', panicked)
            | some gl ↦ if bytes_eq gl old then (s', locked cs) else next s'
          ]
        ]

    -- The loop `for tried <= 3`.
    unfoldable pub lock_tries : ℕ → ℕ → Bytes → Bytes → Storage N → Storage N × LockReply E
    lock_tries zero ts cs key s = (s, refused)
    lock_tries (suc left) ts cs key s =
        let next : Storage N → Storage N × LockReply E = lock_tries left ts cs key in
        elim (storage_put s key (lock_value show_time ts cs) true) [
          | none ↦ (s, panicked)
          | some r ↦ elim r.1 [
            | none ↦ (r.0, locked cs)
            | some e ↦ elim (storage_get r.0 key) [
              | none ↦ (r.0, broken e)
              | some old ↦
                  if ltb (stamp_of old + 60) ts
                  then take_over r.0 key (lock_value show_time ts cs) cs old next
                  else next r.0
            ]
          ]
        ]

    -- `GetLock` at the time `ts` with the fresh checksum `cs`.
    unfoldable pub get_lock : ℕ → Bytes → Bytes → Storage N → Storage N × LockReply E
    get_lock ts cs key s = lock_tries 4 ts cs key s

  -- `ReleaseLock`; the flag says whether it returns nil.
  unfoldable pub release_lock : Storage N → Bytes → Storage N × Bool
  release_lock s key = elim (storage_get s key) [
    | none ↦ (s, false)
    | some cur ↦ (storage_delete s key, true)
  ]
