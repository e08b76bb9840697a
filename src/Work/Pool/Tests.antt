-- ===== src/Work/Pool/Tests.antt =====
-- A pool of two workers for the tests, and the theorems on pools at it.
use wgo.Common.{◌<◌, ◌≡◌, refl, [], ◌∷◌, arith}
use wgo.Work.Pool.{
  listening, stopped, Pool, set_at, start_pool, push, register, take_worker, stop, quit, here,
  then_step, Reach,
}
use wgo.Work.Pool.Sums.{is, sum_of}
use wgo.Work.Pool.Places.{places, Reach-places}
use wgo.Work.Pool.Lost.{holds, Steps-lost}

-- Worker 0 registers and is stopped before job 5 is pushed.
abbrev s1 : Pool
s1 = record start_pool { ready = 0 ∷ []; pc = set_at start_pool.pc 0 listening }

abbrev s2 : Pool
s2 = record s1 { quits = set_at s1.quits 0 1 }

abbrev s3 : Pool
s3 = record s2 { pc = set_at s2.pc 0 stopped; quits = set_at s2.quits 0 0 }

abbrev s4 : Pool
s4 = record s3 { pushed = 5 ∷ []; waiting = 5 ∷ [] }

abbrev s5 : Pool
s5 = record s4 { waiting = []; ready = []; holding = (5, 0) ∷ [] }

abbrev Reach-s5 : Reach 2 s5
Reach-s5 =
    then_step
      (then_step
        (then_step
          (then_step (then_step here (register 0 (omega arith) refl (omega arith)))
            (stop 0 (omega arith)))
          (quit 0 (omega arith) refl (omega arith)))
        (push 5))
      (take_worker 5 0 [] [] [] refl refl)

-- The other worker registers later.
abbrev s6 : Pool
s6 = record s5 { ready = 1 ∷ []; pc = set_at s5.pc 1 listening }

s5_held : 0 < sum_of (holds 5 0) s5.holding
unfolding sum_of
s5_held = omega arith

s6_pushed : sum_of (is 5) s6.pushed ≡ 1
unfolding sum_of
s6_pushed = refl

Reach-places_example : places 2 5 s5 ≡ sum_of (is 5) s5.pushed
Reach-places_example = Reach-places 2 5 s5 Reach-s5

Steps-lost_example : sum_of (is 5) s6.finished ≡ 0
Steps-lost_example =
    Steps-lost 2 5 0 s5 s6 Reach-s5 refl s5_held
      (then_step here (register 1 (omega arith) refl (omega arith))) s6_pushed
