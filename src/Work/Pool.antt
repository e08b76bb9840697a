-- ===== src/Work/Pool.antt =====
-- work.go: a pool of workers, its dispatcher and the goroutines that hand jobs over, as steps in any
-- order. Jobs and workers are numbers.
mod Sums
pub mod Places
pub mod Tokens
pub mod Lost
mod Tests
use wgo.Common.{ℕ, ◌+◌, ◌-◌, ◌<◌, ◌≡◌, List, [], ◌∷◌, ◌++◌, ◌==◌, if◌then◌else◌, length}

-- Where the loop of `Run` stands: before `jw.pool <- jw.channel`, at the `select`, in the handler of
-- a job, or returned.
pub data Pc : Type 0 where
  registering : Pc
  listening : Pc
  busy : ℕ → Pc
  stopped : Pc

-- `waiting` are the jobs of goroutines of `dispatch` at `<-wp.pool`, `ready` is the channel
-- `wp.pool`, `holding` are the goroutines at `channel <- job` with their job and worker, and `quits`
-- counts a worker's goroutines at `jw.quit <- true`. `pushed` and `finished` are kept for the theorems.
pub record Pool : Type 0 where
  pub pushed : List ℕ
  pub waiting : List ℕ
  pub ready : List ℕ
  pub holding : List (ℕ × ℕ)
  pub finished : List ℕ
  pub pc : ℕ → Pc
  pub quits : ℕ → ℕ

abbrev pub set_at {ℓ} : {A : Type ℓ} → (ℕ → A) → ℕ → A → ℕ → A
set_at f i a j = if i == j then a else f j

-- `Start`
abbrev pub start_pool : Pool
start_pool = record {
  pushed = [];
  waiting = [];
  ready = [];
  holding = [];
  finished = [];
  pc = λ _. registering;
  quits = λ _. 0;
}

-- One step of a pool of `max` workers.
pub data Step (max : ℕ) (s : Pool) : Pool → Type 0 where
  -- `work.queue <- job`, received by `dispatch`, which starts a goroutine
  push : (j : ℕ) → Step max s (record s { pushed = j ∷ s.pushed; waiting = s.waiting ++ j ∷ [] })
  -- `jw.pool <- jw.channel`, while the channel's buffer has room
  register :
      (w : ℕ)
      → w < max
      → s.pc w ≡ registering
      → length s.ready < max
      → Step max s (record s { ready = s.ready ++ w ∷ []; pc = set_at s.pc w listening })
  -- `channel := <-wp.pool`, by any of the goroutines that wait
  take_worker :
      (j w : ℕ) (a b r : List ℕ)
      → s.waiting ≡ a ++ j ∷ b
      → s.ready ≡ w ∷ r
      → Step max s (record s { waiting = a ++ b; ready = r; holding = (j, w) ∷ s.holding })
  -- `channel <- job` meets `case job := <-jw.channel`
  deliver :
      (j w : ℕ) (a b : List (ℕ × ℕ))
      → s.holding ≡ a ++ (j, w) ∷ b
      → w < max
      → s.pc w ≡ listening
      → Step max s (record s { holding = a ++ b; pc = set_at s.pc w (busy j) })
  -- `handler.Do(job)` returns
  finish :
      (j w : ℕ)
      → w < max
      → s.pc w ≡ busy j
      → Step max s (record s { finished = j ∷ s.finished; pc = set_at s.pc w registering })
  -- `Stop`, as `End` calls it for each worker
  stop : (w : ℕ) → w < max → Step max s (record s { quits = set_at s.quits w (s.quits w + 1) })
  -- `jw.quit <- true` meets `case <-jw.quit`
  quit :
      (w : ℕ)
      → w < max
      → s.pc w ≡ listening
      → 0 < s.quits w
      → Step max s
          (record s { pc = set_at s.pc w stopped; quits = set_at s.quits w (s.quits w - 1) })

-- The states that a pool reaches from `s`.
pub data Steps (max : ℕ) (s : Pool) : Pool → Type 0 where
  here : Steps max s s
  then_step : {t u : Pool} → Steps max s t → Step max t u → Steps max s u

abbrev pub Reach : ℕ → Pool → Type 0
Reach max s = Steps max start_pool s
