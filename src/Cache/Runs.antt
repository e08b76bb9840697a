-- ===== src/Cache/Runs.antt =====
-- The runs of a cache: any sequence of its operations from `NewCache`.
use wgo.Common.{ℕ, Option, List, [], ◌∷◌, Bytes}
use wgo.Common.Int.{ℤ}
use wgo.Cache.Sound.{
  IsSound, bucket_of-lt, set_entry-IsDirect, get_entry-IsDirect, del_entry-IsDirect,
  put_bucket-IsSound, new_cache-IsSound, count_lookup-IsSound, reset_all-IsSound,
}
use wgo.Cache.Store.{Cache, clear, reset_all, cache_set, cache_get, cache_del}

-- One call of the interface.
pub data Op (V : Type 0) : Type 0 where
  set_op : ℕ → Option Bytes → Option V → ℤ → Op V
  get_op : ℕ → Option Bytes → Op V
  del_op : Option Bytes → Op V
  clear_op reset_op : Op V

module _ {V : Type 0} (hash : Bytes → ℕ) where
  abbrev pub perform : Op V → Cache V → Cache V
  perform (set_op now key value ex) c = (cache_set hash now c key value ex).0
  perform (get_op now key) c = (cache_get hash now c key).0
  perform (del_op key) c = (cache_del hash c key).0
  perform clear_op c = clear c
  perform reset_op c = reset_all c

  abbrev pub run : List (Op V) → Cache V → Cache V
  run [] c = c
  run (op ∷ ops) c = run ops (perform op c)

  pub perform-IsSound : (op : Op V) (c : Cache V) → IsSound c → IsSound (perform op c)
  unfolding cache_set cache_get cache_del clear
  perform-IsSound (set_op now key value ex) c s =
      put_bucket-IsSound c _ _ s (bucket_of-lt hash key)
        (set_entry-IsDirect now _ key value _ ex (s.direct _ (bucket_of-lt hash key)))
  perform-IsSound (get_op now key) c s = count_lookup-IsSound _ _ (
      put_bucket-IsSound c _ _ s (bucket_of-lt hash key)
        (get_entry-IsDirect now _ key _ (s.direct _ (bucket_of-lt hash key))))
  perform-IsSound (del_op key) c s =
      put_bucket-IsSound c _ _ s (bucket_of-lt hash key)
        (del_entry-IsDirect _ key _ (s.direct _ (bucket_of-lt hash key)))
  perform-IsSound clear_op c s = new_cache-IsSound
  perform-IsSound reset_op c s = reset_all-IsSound c s

  pub run-IsSound : (ops : List (Op V)) (c : Cache V) → IsSound c → IsSound (run ops c)
  run-IsSound [] c s = s
  run-IsSound (op ∷ ops) c s = run-IsSound ops (perform op c) (perform-IsSound op c s)
