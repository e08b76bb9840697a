-- ===== src/Work/Pool/Places.antt =====
-- work.go: where the jobs of a pool are.
use wgo.Common.{ℕ, ◌+◌, ◌≡◌, refl, ap, arith}
use wgo.Work.Pool.{
  Pc, registering, listening, busy, stopped, Pool, Step, push, register, take_worker, deliver,
  finish, stop, quit, here, then_step, Reach,
}
use wgo.Work.Pool.Sums.{
  is, sum_of, sum_of-empty, sum_of-cons, sum_of-snoc, sum_of-cut, sum_below, sum_below-set_at,
  sum_below-zero,
}

-- How often a worker has job `j` in hand.
abbrev in_hand : ℕ → Pc → ℕ
in_hand j registering = 0
in_hand j listening = 0
in_hand j (busy k) = is j k
in_hand j stopped = 0

abbrev pub for_job : ℕ → ℕ × ℕ → ℕ
for_job j p = is j p.0

-- How often a job is with a goroutine that waits for a worker, with one that has found a worker,
-- with a worker, or finished.
abbrev pub places : ℕ → ℕ → Pool → ℕ
places max j s =
    sum_of (is j) s.waiting
    + sum_of (for_job j) s.holding
    + sum_below (in_hand j) max s.pc
    + sum_of (is j) s.finished

Step-places :
    (max j : ℕ) (s t : Pool)
    → Step max s t
    → places max j s ≡ sum_of (is j) s.pushed
    → places max j t ≡ sum_of (is j) t.pushed
Step-places max j s _ (push k) h =
    omega (arith, h, sum_of-snoc (is j) s.waiting k, sum_of-cons (is j) k s.pushed)
Step-places max j s _ (register w lt e room) h =
    omega (arith, h, sum_below-set_at (in_hand j) max s.pc w listening lt, ap (in_hand j) e)
Step-places max j s _ (take_worker k w a b r ew er) h =
    omega (arith, h, sum_of-cut (is j) s.waiting a k b ew, sum_of-cons (for_job j) (k, w) s.holding)
Step-places max j s _ (deliver k w a b eh lt e) h = omega (
  arith,
  h,
  sum_of-cut (for_job j) s.holding a (k, w) b eh,
  sum_below-set_at (in_hand j) max s.pc w (busy k) lt,
  ap (in_hand j) e,
)
Step-places max j s _ (finish k w lt e) h = omega (
  arith,
  h,
  sum_of-cons (is j) k s.finished,
  sum_below-set_at (in_hand j) max s.pc w registering lt,
  ap (in_hand j) e,
)
Step-places max j s _ (stop w lt) h = h
Step-places max j s _ (quit w lt e q) h =
    omega (arith, h, sum_below-set_at (in_hand j) max s.pc w stopped lt, ap (in_hand j) e)

-- In every state that a pool reaches, by any order of steps, a job is as often in one of its places
-- as it was pushed: none is lost between the queue, the goroutines and the workers, and none is
-- handled twice.
pub Reach-places : (max j : ℕ) (s : Pool) → Reach max s → places max j s ≡ sum_of (is j) s.pushed
Reach-places max j _ here = omega (
  arith,
  sum_of-empty (is j),
  sum_of-empty (for_job j),
  sum_below-zero (in_hand j) max (λ _. registering) (λ _. refl),
)
Reach-places max j t (then_step {t = s} r st) = Step-places max j s t st (Reach-places max j s r)
