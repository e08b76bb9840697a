-- ===== src/Storage/Locking.antt =====
-- storage/lock.go: what `GetLock` answers.
use wgo.Common.{ℕ, zero, suc, ◌≡◌, ◌≢◌, refl, ap, ◌∙◌, Bool, true, some, [], ◌∷◌, Bytes, arith}
use wgo.Storage.{Nodes, Storage, locked, put_tries, storage_put, lock_value, lock_tries, get_lock}

abbrev pair : {A B : Type 0} → A → B → A × B
pair a c = (a, c)

module _ {N E : Type 0} (b : Nodes N E) (hash : Bytes → ℕ) where
  put_tries-next :
      (left : ℕ) (n : N) (i : ℕ) (key val : Bytes) (absent : Bool) (e : E)
      → (b.node_put n i key val absent).1 ≡ some e
      → put_tries b hash (suc left) n i key val absent
        ≡ put_tries b hash left (b.node_put n i key val absent).0 i key val absent
  unfolding put_tries
  put_tries-next left n i key val absent e h = ground (arith, h)

  -- A put that every node refuses, which leaves the nodes as they are, ends and changes nothing.
  put_tries_refused :
      (left : ℕ) (n : N) (i : ℕ) (key val : Bytes) (absent : Bool) (e : E)
      → b.node_put n i key val absent ≡ (n, some e)
      → put_tries b hash left n i key val absent ≡ n
  unfolding put_tries
  put_tries_refused zero n i key val absent e h = refl
  put_tries_refused (suc left) n i key val absent e h =
      put_tries-next left n i key val absent e (ap (λ r. r.1) h)
      ∙ ap (λ m. put_tries b hash left m i key val absent) (ap (λ r. r.0) h)
      ∙ put_tries_refused left n i key val absent e h

  module _ (show_time : ℕ → Bytes) (stamp_of : Bytes → ℕ) where
    -- `GetLock` with a non-empty key returns its own checksum and no error, whatever the nodes
    -- answer, so it never reaches its second try.
    pub get_lock-locked :
        (ts : ℕ) (cs key : Bytes) (s : Storage N)
        → key ≢ []
        → (get_lock b hash show_time stamp_of ts cs key s).1 ≡ locked cs
    unfolding get_lock lock_tries storage_put
    get_lock-locked ts cs [] s hk = absurd (hk refl)
    get_lock-locked ts cs (x ∷ xs) s hk = refl

    -- When the nodes refuse the write and stay as they are, since another holder's value is there,
    -- `GetLock` with a non-empty key still returns its own checksum and the storage is as before:
    -- both hold the lock.
    pub get_lock-refused :
        (ts : ℕ) (cs key : Bytes) (s : Storage N) (e : E)
        → key ≢ []
        → b.node_put s.nodes (hash key) key (lock_value show_time ts cs) true ≡ (s.nodes, some e)
        → get_lock b hash show_time stamp_of ts cs key s ≡ (s, locked cs)
    unfolding get_lock lock_tries storage_put
    get_lock-refused ts cs [] s e hk h = absurd (hk refl)
    get_lock-refused ts cs (x ∷ xs) s e hk h =
        ap (λ (n : N). pair (record s { nodes = n }) (locked cs))
          (put_tries_refused 5 s.nodes (hash (x ∷ xs)) (x ∷ xs) (lock_value show_time ts cs) true e
            h)
