-- ===== src/Work.antt =====
-- work.go: jobs, the chains of handlers that workers run, and the jobs of one context. A job is an
-- index into the jobs that were made; a context keeps only the last one made, as `Context.job`.
pub mod Chain
pub mod Sharing
pub mod Pool
mod Tests
use wgo.Common.{
  ℕ, Option, none, some, List, [], ◌∷◌, ◌++◌, Bytes, bytes_eq, length, get_or, set, if◌then◌else◌,
}

-- A message on a job's response channel.
pub data Reply (V E : Type 0) : Type 0 where
  answer : Option V → Reply V E
  failure : E → Reply V E

-- The fields that the handling of a job changes, with its method. `sent` is what has been put on
-- the response channel.
pub record Job (V E : Type 0) : Type 0 where
  pub method : Bytes
  pub payload : Option V
  pub result : Option V
  pub req : List V
  pub resp : List V
  pub err : Option E
  pub sent : List (Reply V E)

-- The jobs, the context's current one, and the access log: for each entry the job and its requests
-- to others with their answers.
pub record World (V E : Type 0) : Type 0 where
  pub jobs : List (Job V E)
  pub current : ℕ
  pub logs : List (ℕ × List V × List V)

-- How a handler ends: it returns an error or nil, or it panics.
pub data Outcome (E : Type 0) : Type 0 where
  returned : Option E → Outcome E
  panicked : E → Outcome E

abbrev pub Handler : Type 0 → Type 0 → Type 0
Handler V E = World V E → World V E × Outcome E

pub record JobRoute (V E : Type 0) : Type 0 where
  pub method : Bytes
  pub middlewares : List (Handler V E → Handler V E)
  pub handlers : List (Handler V E)

module _ (V E : Type 0) where
  -- `NewJob` but for what it is given.
  abbrev pub blank : Job V E
  blank = record {
    method = [];
    payload = none;
    result = none;
    req = [];
    resp = [];
    err = none;
    sent = [];
  }

module _ {V E : Type 0} where
  abbrev pub job_at : World V E → ℕ → Job V E
  job_at w j = get_or w.jobs j (blank V E)

  abbrev pub put_job : World V E → ℕ → Job V E → World V E
  put_job w j job = record w { jobs = set w.jobs j job }

  unfoldable pub new_job : Bytes → Option V → World V E → World V E
  new_job method payload w = record w {
    jobs = w.jobs ++ record (blank V E) { method = method; payload = payload } ∷ [];
    current = length w.jobs;
  }

  -- `Error`
  unfoldable pub set_error : ℕ → E → World V E → World V E
  set_error j e w = put_job w j (record (job_at w j) { err = some e })

  unfoldable pub save_access_log : ℕ → World V E → World V E
  save_access_log j w =
      let job = job_at w j in
      record (put_job w j (record job { req = []; resp = [] })) {
        logs = w.logs ++ (j, job.req, job.resp) ∷ [];
      }

  unfoldable pub continue_job : ℕ → World V E → World V E
  continue_job j w =
      let job = job_at w j in put_job w j (record job { payload = job.result; result = none })

  -- `Response`: the error if there is one, else the result.
  unfoldable pub respond : ℕ → World V E → World V E
  unfolding save_access_log
  respond j w =
      let w' = save_access_log j w in
      let job = job_at w' j in
      let reply : Reply V E = elim job.err [ some e ↦ failure e | none ↦ answer job.result ] in
      put_job w' j (record job { sent = job.sent ++ reply ∷ [] })

  -- `Chain`. The log and the step to the next payload are those of the context's current job.
  unfoldable pub chain : Handler V E → Handler V E → Handler V E
  chain this next w =
      let (w', o) = this w in
      elim o [
        | panicked e ↦ (w', panicked e)
        | returned r ↦ elim r [
          | some e ↦ (w', returned (some e))
          | none ↦ next (continue_job w'.current (save_access_log w'.current w'))
        ]
      ]

  -- `for _, h := range route.handlers[1:] { handler = handler.Chain(h) }`
  unfoldable pub chain_all : Handler V E → List (Handler V E) → Handler V E
  chain_all handler [] = handler
  chain_all handler (h ∷ hs) = chain_all (chain handler h) hs

  -- `for i := len(ms) - 1; i >= 0; i--`
  unfoldable pub apply_middlewares : List (Handler V E → Handler V E) → Handler V E → Handler V E
  apply_middlewares [] handler = handler
  apply_middlewares (m ∷ ms) handler = m (apply_middlewares ms handler)

  -- The handler that a worker runs: `jobHandler` for a route with handlers, else the default one.
  unfoldable pub route_handler : Handler V E → Option (JobRoute V E) → Handler V E
  route_handler default none = default
  route_handler default (some route) = elim route.handlers [
    | [] ↦ default
    | h ∷ hs ↦ apply_middlewares route.middlewares (chain_all h hs)
  ]

  -- `jw.routes[method]`
  unfoldable pub find_route : List (JobRoute V E) → Bytes → Option (JobRoute V E)
  find_route [] method = none
  find_route (r ∷ rs) method = if bytes_eq r.method method then some r else find_route rs method

  unfoldable pub worker_handler : Handler V E → List (JobRoute V E) → Bytes → Handler V E
  worker_handler default routes [] = default
  worker_handler default routes (b ∷ bs) = route_handler default (find_route routes (b ∷ bs))

  -- What `Do` does once its handler has ended; a panic is recovered from.
  unfoldable pub finish_job : ℕ → World V E × Outcome E → World V E
  finish_job j (w, panicked e) = respond j (set_error j e w)
  finish_job j (w, returned (some e)) = respond j (set_error j e w)
  finish_job j (w, returned none) = respond j w

  -- `Do`
  unfoldable pub do_job : Handler V E → ℕ → World V E → World V E
  do_job hf j w = finish_job j (hf w)
