-- ===== src/Proxy/Latency.antt =====
-- maxLatencyWriter in whttp/proxy.go: a writer that flushes by a timer. Each method holds the lock,
-- so it is one step; a timer that ran out has a goroutine at the lock of `delayedFlush`.
pub mod Flushing
use wgo.Common.{ℕ, zero, suc, ◌+◌, ◌-◌, ◌<◌, ◌≡◌, Bool, true, false, List, [], ◌∷◌, ◌++◌, Bytes}

-- `t`: nil, or a timer that waits or does not.
pub data Timer : Type 0 where
  no_timer : Timer
  running : Timer
  idle : Timer

-- `immediate` is `latency < 0`; `flushed` and `buffered` are what `dst` has sent and not sent yet,
-- `flushers` the goroutines of the timer, and `is_stopped` whether `stop` was called.
pub record Writer : Type 0 where
  pub immediate : Bool
  pub timer : Timer
  pub flush_pending : Bool
  pub flushed : Bytes
  pub buffered : Bytes
  pub flushers : ℕ
  pub is_stopped : Bool

-- `dst.Flush`
abbrev pub flush : Writer → Writer
flush m = record m { flushed = m.flushed ++ m.buffered; buffered = [] }

-- `m.t = time.AfterFunc(…)` or `m.t.Reset(…)`, with the flag.
abbrev pub arm : Writer → Writer
arm m = record m { timer = running; flush_pending = true }

-- `Write`, of bytes that `dst` takes.
unfoldable pub write : Bytes → Writer → Writer
write p m =
    let m' = record m { buffered = m.buffered ++ p } in
    elim m.immediate [
      | true ↦ flush m'
      | false ↦ elim m.flush_pending [ true ↦ m' | false ↦ arm m' ]
    ]

-- `delayedFlush`
unfoldable pub delayed_flush : Writer → Writer
delayed_flush m = record (flush m) { flush_pending = false; flushers = m.flushers - 1 }

-- `stop`
unfoldable pub stop : Writer → Writer
stop m = elim m.timer [
  | no_timer ↦ record m { is_stopped = true }
  | running ↦ record m { timer = idle; is_stopped = true }
  | idle ↦ record m { is_stopped = true }
]

-- `&maxLatencyWriter{…}`
abbrev pub new_writer : Bool → Writer
new_writer immediate = record {
  immediate = immediate;
  timer = no_timer;
  flush_pending = false;
  flushed = [];
  buffered = [];
  flushers = 0;
  is_stopped = false;
}

-- The calls of `copyResponse`, which writes before it stops, and what the timer does. The last index
-- is what has been written.
pub data Reach (immediate : Bool) : Writer → Bytes → Type 0 where
  start : Reach immediate (new_writer immediate) []
  after_write :
      {m : Writer} {all : Bytes} (p : Bytes)
      → Reach immediate m all
      → m.is_stopped ≡ false
      → Reach immediate (write p m) (all ++ p)
  after_expiry :
      {m : Writer} {all : Bytes}
      → Reach immediate m all
      → m.timer ≡ running
      → Reach immediate (record m { timer = idle; flushers = m.flushers + 1 }) all
  after_flush :
      {m : Writer} {all : Bytes}
      → Reach immediate m all
      → 0 < m.flushers
      → Reach immediate (delayed_flush m) all
  after_stop :
      {m : Writer} {all : Bytes}
      → Reach immediate m all
      → m.is_stopped ≡ false
      → Reach immediate (stop m) all
