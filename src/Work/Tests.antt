-- ===== src/Work/Tests.antt =====
-- Handlers and a pool of jobs for the tests, and the theorems on jobs at them.
use wgo.Common.{
  ℕ, ◌≡◌, refl, sym, none, some, [], ◌∷◌, ◌++◌, bytes_eq, arith, get_or-set_ne, length-set,
}
use wgo.Work.{
  answer, failure, World, returned, panicked, Handler, JobRoute, blank, job_at, put_job, new_job,
  set_error, save_access_log, continue_job, respond, finish_job, chain, chain_all,
  apply_middlewares, route_handler, do_job, find_route, worker_handler,
}
use wgo.Work.Chain.{Turns, Wraps, route_handler-Turns, do_job-sent, reply_of}
use wgo.Work.Sharing.{Local, KeepsLocal, Touches-trans, do_job-stale}

-- A handler that answers with its payload.
abbrev echo : Handler ℕ ℕ
echo w = (
  put_job w w.current (record (job_at w w.current) { result = (job_at w w.current).payload }),
  returned none,
)

abbrev refuse : Handler ℕ ℕ
refuse w = (w, returned (some 400))

abbrev crash : Handler ℕ ℕ
crash w = (w, panicked 500)

echo-Local : Local echo
echo-Local w = record {
  same_current = refl;
  same_length = length-set w.jobs w.current _;
  others = λ j d. get_or-set_ne w.jobs w.current j _ (blank ℕ ℕ) (λ e. d (sym e));
}

-- A middleware that calls its handler twice.
abbrev again : Handler ℕ ℕ → Handler ℕ ℕ
again h w = h (h w).0

abbrev twice : JobRoute ℕ ℕ
twice = record { method = b'm' ∷ []; middlewares = again ∷ []; handlers = echo ∷ echo ∷ [] }

abbrev no_jobs : World ℕ ℕ
no_jobs = record { jobs = []; current = 0; logs = [] }

abbrev one_job : World ℕ ℕ
one_job = record {
  jobs = record (blank ℕ ℕ) { method = b'm' ∷ []; payload = some 7 } ∷ [];
  current = 0;
  logs = [];
}

-- The second handler's payload is the first's result.
twice_run :
    (job_at (do_job (worker_handler refuse (twice ∷ []) (b'm' ∷ [])) 0 one_job) 0).sent
    ≡ answer (some 7) ∷ []
unfolding do_job worker_handler find_route route_handler chain_all chain apply_middlewares
    finish_job respond save_access_log continue_job bytes_eq
twice_run = refl

crash_run : (job_at (do_job crash 0 one_job) 0).sent ≡ failure 500 ∷ []
unfolding do_job finish_job respond save_access_log set_error
crash_run = refl

again-KeepsLocal : KeepsLocal again
again-KeepsLocal h l w = Touches-trans (l w) (l (h w).0)

route_handler-Turns_example :
    (inner : Handler ℕ ℕ) × ((w : World ℕ ℕ) → Turns (echo ∷ echo ∷ []) w (inner w))
    × Wraps (again ∷ []) inner (route_handler refuse (some twice))
route_handler-Turns_example = route_handler-Turns refuse twice echo (echo ∷ []) refl

do_job-sent_example :
    (job_at (do_job echo 0 one_job) 0).sent
    ≡ [] ++ reply_of (returned none) (job_at (echo one_job).0 0) ∷ []
do_job-sent_example = do_job-sent echo 0 one_job (omega arith)

abbrev two_jobs : World ℕ ℕ
two_jobs = new_job (b'm' ∷ []) (some 8) (new_job (b'm' ∷ []) (some 7) no_jobs)

two_jobs_end : (route_handler refuse (some twice) two_jobs).1 ≡ returned none
unfolding route_handler chain_all chain apply_middlewares
two_jobs_end = refl

do_job-stale_example :
    (job_at (do_job (route_handler refuse (some twice)) 0 two_jobs) 0).sent ≡ answer none ∷ []
do_job-stale_example =
    do_job-stale refuse twice echo (echo ∷ []) (b'm' ∷ []) (b'm' ∷ []) (some 7) (some 8) no_jobs
      refl (again-KeepsLocal, tt) echo-Local (echo-Local, tt) two_jobs_end
