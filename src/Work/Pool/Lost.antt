-- ===== src/Work/Pool/Lost.antt =====
-- work.go: what `End` does to the jobs that are pushed or waiting.
use wgo.Common.{ℕ, ◌<◌, ◌≤◌, ◌≡◌, ap, ◌∙◌, List, [], ◌∷◌, ◌==◌, if◌then◌else◌, arith, ◌&&◌}
use native.Mathlib.Decide.{ℕ_discrete}
use wgo.Work.Pool.{
  Pc, registering, listening, busy, stopped, Pool, set_at, Step, push, register, take_worker,
  deliver, finish, stop, quit, Steps, here, then_step, Reach,
}
use wgo.Work.Pool.Sums.{is, sum_of, sum_of-empty, sum_of-cons, sum_of-cut}
use wgo.Work.Pool.Places.{for_job, Reach-places}

-- Whether a goroutine holds job `j` for worker `w`.
abbrev pub holds : ℕ → ℕ → ℕ × ℕ → ℕ
holds j w p = if j == p.0 && w == p.1 then 1 else 0

set_at-stopped :
    (pc : ℕ → Pc) (v w : ℕ) (p : Pc)
    → (pc v ≡ stopped → p ≡ stopped)
    → pc w ≡ stopped
    → set_at pc v p w ≡ stopped
set_at-stopped pc v w p keep h = elim (ℕ_discrete v w) [
  | yes e ↦ rw e (ground (arith, keep (ap pc e ∙ h)))
  | no d ↦ ground (arith, h)
]

deliver-holds :
    (pc : ℕ → Pc) (j k v w : ℕ) → pc v ≡ listening → pc w ≡ stopped → holds j w (k, v) ≡ 0
deliver-holds pc j k v w e h = elim (ℕ_discrete w v) [
  | yes same ↦ cc (e, h, same)
  | no d ↦ ground arith
]

-- A worker that has returned stays so, and what goroutines hold for it they hold for ever.
Step-stuck :
    (max j w : ℕ) (s t : Pool)
    → Step max s t
    → s.pc w ≡ stopped
    → (t.pc w ≡ stopped) × (sum_of (holds j w) s.holding ≤ sum_of (holds j w) t.holding)
Step-stuck max j w s _ (push k) h = (h, omega arith)
Step-stuck max j w s _ (register v lt e room) h =
    (set_at-stopped s.pc v w listening (λ x. cc) h, omega arith)
Step-stuck max j w s _ (take_worker k v a b r ew er) h =
    (h, omega (arith, sum_of-cons (holds j w) (k, v) s.holding))
Step-stuck max j w s _ (deliver k v a b eh lt e) h = (
  set_at-stopped s.pc v w (busy k) (λ x. cc) h,
  omega (arith, sum_of-cut (holds j w) s.holding a (k, v) b eh, deliver-holds s.pc j k v w e h),
)
Step-stuck max j w s _ (finish k v lt e) h =
    (set_at-stopped s.pc v w registering (λ x. cc) h, omega arith)
Step-stuck max j w s _ (stop v lt) h = (h, omega arith)
Step-stuck max j w s _ (quit v lt e q) h =
    (set_at-stopped s.pc v w stopped (λ x. cc) h, omega arith)

Steps-stuck :
    (max j w : ℕ) (s t : Pool)
    → Steps max s t
    → s.pc w ≡ stopped
    → (t.pc w ≡ stopped) × (sum_of (holds j w) s.holding ≤ sum_of (holds j w) t.holding)
Steps-stuck max j w s _ here h = (h, omega arith)
Steps-stuck max j w s u (then_step {t = t} r st) h =
    let before = Steps-stuck max j w s t r h in
    let after = Step-stuck max j w t u st before.0 in (after.0, omega (arith, before.1, after.1))

Steps-trans : {max : ℕ} {s t u : Pool} → Steps max s t → Steps max t u → Steps max s u
Steps-trans r here = r
Steps-trans r (then_step q st) = then_step (Steps-trans r q) st

sum_of-le : (l : List (ℕ × ℕ)) (j w : ℕ) → sum_of (holds j w) l ≤ sum_of (for_job j) l
sum_of-le [] j w = omega (arith, sum_of-empty (holds j w))
sum_of-le ((k, v) ∷ l) j w =
    ground
      (arith, sum_of-cons (holds j w) (k, v) l, sum_of-cons (for_job j) (k, v) l, sum_of-le l j w)

-- A job that was pushed once and whose goroutine holds the channel of a worker that has stopped is
-- finished in no later state: a stopped worker leaves its channel in the pool, and nobody reads it.
pub Steps-lost :
    (max j w : ℕ) (s t : Pool)
    → Reach max s
    → s.pc w ≡ stopped
    → 0 < sum_of (holds j w) s.holding
    → Steps max s t
    → sum_of (is j) t.pushed ≡ 1
    → sum_of (is j) t.finished ≡ 0
Steps-lost max j w s t r h held more once = omega (
  arith,
  Reach-places max j t (Steps-trans r more),
  (Steps-stuck max j w s t more h).1,
  sum_of-le t.holding j w,
)
