-- ===== src/Work/Pool/Tokens.antt =====
-- work.go: the channel of free workers.
use wgo.Common.{ℕ, ◌+◌, ◌<◌, ◌≤◌, ◌≡◌, refl, ap, List, [], ◌∷◌, ◌++◌, arith, length, length-append}
use wgo.Work.Pool.{
  Pc, registering, listening, busy, stopped, Pool, Step, push, register, take_worker, deliver,
  finish, stop, quit, here, then_step, Reach,
}
use wgo.Work.Pool.Sums.{
  is, sum_of, sum_of-empty, sum_of-cons, sum_of-snoc, sum_of-cut, sum_below, sum_below-set_at,
  sum_below-zero, sum_below-lt,
}

-- Whether a worker's channel is on its way: it was sent to the pool and no job came through it.
abbrev offered : Pc → ℕ
offered registering = 0
offered listening = 1
offered (busy k) = 0
offered stopped = 1

abbrev pub for_worker : ℕ → ℕ × ℕ → ℕ
for_worker w p = is w p.1

-- How often the channel of worker `w` is in the pool or with a goroutine.
abbrev pub channels : ℕ → Pool → ℕ
channels w s = sum_of (is w) s.ready + sum_of (for_worker w) s.holding

Step-channels :
    (max w : ℕ) (s t : Pool)
    → Step max s t
    → channels w s ≡ offered (s.pc w)
    → channels w t ≡ offered (t.pc w)
Step-channels max w s _ (push k) h = h
Step-channels max w s _ (register v lt e room) h =
    ground (arith, h, sum_of-snoc (is w) s.ready v, ap offered e)
Step-channels max w s _ (take_worker k v a b r ew er) h = omega (
  arith,
  h,
  sum_of-cons (for_worker w) (k, v) s.holding,
  sum_of-cons (is w) v r,
  ap (sum_of (is w)) er,
)
Step-channels max w s _ (deliver k v a b eh lt e) h =
    ground (arith, h, sum_of-cut (for_worker w) s.holding a (k, v) b eh, ap offered e)
Step-channels max w s _ (finish k v lt e) h = ground (arith, h, ap offered e)
Step-channels max w s _ (stop v lt) h = h
Step-channels max w s _ (quit v lt e q) h = ground (arith, h, ap offered e)

-- A worker that listens or has stopped has its channel exactly once in the pool or with a
-- goroutine; any other has it nowhere.
pub Reach-channels : (max w : ℕ) (s : Pool) → Reach max s → channels w s ≡ offered (s.pc w)
Reach-channels max w _ here = omega (arith, sum_of-empty (is w), sum_of-empty (for_worker w))
Reach-channels max w t (then_step {t = s} r st) =
    Step-channels max w s t st (Reach-channels max w s r)

-- All channels that are on their way.
abbrev all_channels : Pool → ℕ
all_channels s = length s.ready + length s.holding

length-cut :
    {A : Type 0} (l a : List A) (x : A) (b : List A)
    → l ≡ a ++ x ∷ b
    → length l ≡ length (a ++ b) + 1
length-cut l a x b e = rw e (omega (arith, length-append a (x ∷ b), length-append a b))

Step-all_channels :
    (max : ℕ) (s t : Pool)
    → Step max s t
    → all_channels s ≡ sum_below offered max s.pc
    → all_channels t ≡ sum_below offered max t.pc
Step-all_channels max s _ (push k) h = h
Step-all_channels max s _ (register w lt e room) h = omega (
  arith,
  h,
  length-append s.ready (w ∷ []),
  sum_below-set_at offered max s.pc w listening lt,
  ap offered e,
)
Step-all_channels max s _ (take_worker k w a b r ew er) h = omega (arith, h, ap (length {A = ℕ}) er)
Step-all_channels max s _ (deliver k w a b eh lt e) h = omega (
  arith,
  h,
  length-cut s.holding a (k, w) b eh,
  sum_below-set_at offered max s.pc w (busy k) lt,
  ap offered e,
)
Step-all_channels max s _ (finish k w lt e) h =
    omega (arith, h, sum_below-set_at offered max s.pc w registering lt, ap offered e)
Step-all_channels max s _ (stop w lt) h = h
Step-all_channels max s _ (quit w lt e q) h =
    omega (arith, h, sum_below-set_at offered max s.pc w stopped lt, ap offered e)

Reach-all_channels :
    (max : ℕ) (s : Pool) → Reach max s → all_channels s ≡ sum_below offered max s.pc
Reach-all_channels max _ here =
    omega (arith, sum_below-zero offered max (λ _. registering) (λ _. refl))
Reach-all_channels max t (then_step {t = s} r st) =
    Step-all_channels max s t st (Reach-all_channels max s r)

offered-le : (p : Pc) → offered p ≤ 1
offered-le registering = omega arith
offered-le listening = omega arith
offered-le (busy k) = omega arith
offered-le stopped = omega arith

-- In every state that a pool reaches, a worker that wants to register finds room in the pool's
-- channel, so that this send never blocks, whatever the other workers and goroutines do.
pub Reach-room :
    (max w : ℕ) (s : Pool) → Reach max s → w < max → s.pc w ≡ registering → length s.ready < max
Reach-room max w s r lt e = omega (
  arith,
  Reach-all_channels max s r,
  sum_below-lt offered max s.pc w offered-le lt (ap offered e),
)
