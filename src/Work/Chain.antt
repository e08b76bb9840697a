-- ===== src/Work/Chain.antt =====
-- work.go: what the chained handlers of a route do, and what a job's requester gets.
use wgo.Common.{
  ℕ, ◌≡◌, ◌<◌, refl, ap, ◌∙◌, none, some, List, [], ◌∷◌, ◌++◌, arith, length, get_or-set_self,
  length-set,
}
use mathlib.Core.Path.{fun_ext}
use wgo.Work.{
  Reply, answer, failure, Job, World, Outcome, returned, panicked, Handler, JobRoute, blank, job_at,
  put_job, set_error, save_access_log, continue_job, respond, finish_job, chain, chain_all,
  apply_middlewares, route_handler, do_job,
}

module _ {V E : Type 0} where
  -- The handlers in turn: the first error or panic ends the run, and between two handlers the
  -- current job is logged and its result becomes its payload.
  unfoldable pub run_in_turn : Handler V E → List (Handler V E) → Handler V E
  run_in_turn h [] w = h w
  run_in_turn h (g ∷ gs) w = chain h (run_in_turn g gs) w

  chain_assoc :
      (f g h : Handler V E) (w : World V E) → chain (chain f g) h w ≡ chain f (chain g h) w
  unfolding chain
  chain_assoc f g h w = ground arith

  chain_all-chain :
      (f g : Handler V E) (hs : List (Handler V E)) (w : World V E)
      → chain_all (chain f g) hs w ≡ chain f (chain_all g hs) w
  unfolding chain_all
  chain_all-chain f g [] w = refl
  chain_all-chain f g (h ∷ hs) w =
      ap (λ (x : Handler V E). chain_all x hs w) (fun_ext (chain_assoc f g h))
      ∙ chain_all-chain f (chain g h) hs w

  chain_all-run_in_turn :
      (h : Handler V E) (hs : List (Handler V E)) (w : World V E)
      → chain_all h hs w ≡ run_in_turn h hs w
  unfolding chain_all run_in_turn
  chain_all-run_in_turn h [] w = refl
  chain_all-run_in_turn h (g ∷ gs) w =
      chain_all-chain h g gs w
      ∙ ap (λ (x : Handler V E). chain h x w) (fun_ext (chain_all-run_in_turn g gs))

  abbrev route_of :
      Handler V E → List (Handler V E → Handler V E) → List (Handler V E) → Handler V E
  route_of default ms [] = default
  route_of default ms (h ∷ hs) = apply_middlewares ms (chain_all h hs)

  pub route_handler-run_in_turn :
      (default : Handler V E) (r : JobRoute V E) (h : Handler V E) (hs : List (Handler V E))
      → r.handlers ≡ h ∷ hs
      → route_handler default (some r) ≡ apply_middlewares r.middlewares (run_in_turn h hs)
  unfolding route_handler
  route_handler-run_in_turn default r h hs e =
      ap (route_of default r.middlewares) e
      ∙ ap (apply_middlewares r.middlewares) (fun_ext (chain_all-run_in_turn h hs))

  -- How handlers run one after the other from a state, and how that ends. Each starts when the one
  -- before it has returned no error, and once the current job is logged and its result is its
  -- payload.
  pub data Turns : List (Handler V E) → World V E → World V E × Outcome E → Type 0 where
    last : (h : Handler V E) (w : World V E) → Turns (h ∷ []) w (h w)
    stopped :
        (h : Handler V E) (hs : List (Handler V E)) (w w' : World V E) (e : E)
        → h w ≡ (w', returned (some e))
        → Turns (h ∷ hs) w (w', returned (some e))
    broken :
        (h : Handler V E) (hs : List (Handler V E)) (w w' : World V E) (e : E)
        → h w ≡ (w', panicked e)
        → Turns (h ∷ hs) w (w', panicked e)
    next :
        (h g : Handler V E) (hs : List (Handler V E)) (w w' : World V E)
        (out : World V E × Outcome E)
        → h w ≡ (w', returned none)
        → Turns (g ∷ hs) (continue_job w'.current (save_access_log w'.current w')) out
        → Turns (h ∷ g ∷ hs) w out

  -- A handler inside middlewares, the first outermost.
  pub data Wraps : List (Handler V E → Handler V E) → Handler V E → Handler V E → Type 0 where
    bare : (h : Handler V E) → Wraps [] h h
    wrapped :
        (m : Handler V E → Handler V E) (ms : List (Handler V E → Handler V E))
        (h within : Handler V E)
        → Wraps ms h within
        → Wraps (m ∷ ms) h (m within)

  run_in_turn-Turns :
      (h : Handler V E) (hs : List (Handler V E)) (w : World V E)
      → Turns (h ∷ hs) w (run_in_turn h hs w)
  unfolding run_in_turn chain
  run_in_turn-Turns h [] w = last h w
  run_in_turn-Turns h (g ∷ gs) w = from (h w) (run_in_turn-Turns g gs) refl
    where
      from :
          (out : World V E × Outcome E)
          → ((v : World V E) → Turns (g ∷ gs) v (run_in_turn g gs v))
          → h w ≡ out
          → Turns (h ∷ g ∷ gs) w (chain (λ _. out) (run_in_turn g gs) w)
      from (w', panicked e) go is = broken h (g ∷ gs) w w' e is
      from (w', returned (some e)) go is = stopped h (g ∷ gs) w w' e is
      from (w', returned none) go is = next h g gs w w' _ is (go _)

  apply_middlewares-Wraps :
      (ms : List (Handler V E → Handler V E)) (h : Handler V E)
      → Wraps ms h (apply_middlewares ms h)
  unfolding apply_middlewares
  apply_middlewares-Wraps [] h = bare h
  apply_middlewares-Wraps (m ∷ ms) h = wrapped m ms h _ (apply_middlewares-Wraps ms h)

  -- The handler of a route with handlers is one that runs them in turn, from the first to the first
  -- that panics or returns an error, inside the route's middlewares, the first outermost; between
  -- two handlers the current job is logged and its result becomes its payload.
  pub route_handler-Turns :
      (default : Handler V E) (r : JobRoute V E) (h : Handler V E) (hs : List (Handler V E))
      → r.handlers ≡ h ∷ hs
      → (inner : Handler V E) × ((w : World V E) → Turns (h ∷ hs) w (inner w))
        × Wraps r.middlewares inner (route_handler default (some r))
  route_handler-Turns default r h hs e = (
    run_in_turn h hs,
    run_in_turn-Turns h hs,
    rw (route_handler-run_in_turn default r h hs e)
        (apply_middlewares-Wraps r.middlewares (run_in_turn h hs)),
  )

  -- The reply to a job from how its handler ended and the job that it left.
  abbrev pub reply_of : Outcome E → Job V E → Reply V E
  reply_of (panicked e) job = failure e
  reply_of (returned (some e)) job = failure e
  reply_of (returned none) job = elim job.err [ some e ↦ failure e | none ↦ answer job.result ]

  job_at-put_job :
      (w : World V E) (j : ℕ) (job : Job V E) → j < length w.jobs → job_at (put_job w j job) j ≡ job
  job_at-put_job w j job h = get_or-set_self w.jobs j job (blank V E) h

  respond-sent :
      (w : World V E) (j : ℕ)
      → j < length w.jobs
      → (job_at (respond j w) j).sent
        ≡ (job_at w j).sent ++ reply_of (returned none) (job_at w j) ∷ []
  unfolding respond save_access_log
  respond-sent w j h =
      let w' : World V E = save_access_log j w in
      let e : job_at w' j ≡ record (job_at w j) { req = []; resp = [] } =
        get_or-set_self w.jobs j _ (blank V E) h in
      ap Job.sent (
        get_or-set_self w'.jobs j _ (blank V E)
          (omega (arith, length-set w.jobs j (record (job_at w j) { req = []; resp = [] }), h)))
      ∙ ap (λ (x : Job V E). x.sent ++ reply_of (returned none) x ∷ []) e

  set_error-sent :
      (w : World V E) (j : ℕ) (e : E)
      → j < length w.jobs
      → (job_at (respond j (set_error j e w)) j).sent ≡ (job_at w j).sent ++ failure e ∷ []
  unfolding set_error
  set_error-sent w j e h =
      let job : Job V E = record (job_at w j) { err = some e } in
      respond-sent (put_job w j job) j (omega (arith, length-set w.jobs j job, h))
      ∙ ap (λ (x : Job V E). x.sent ++ reply_of (returned none) x ∷ []) (job_at-put_job w j job h)

  send_reply :
      (w : World V E) (o : Outcome E) (j : ℕ)
      → j < length w.jobs
      → (job_at (finish_job j (w, o)) j).sent ≡ (job_at w j).sent ++ reply_of o (job_at w j) ∷ []
  unfolding finish_job
  send_reply w (panicked e) j h = set_error-sent w j e h
  send_reply w (returned (some e)) j h = set_error-sent w j e h
  send_reply w (returned none) j h = respond-sent w j h

  -- `Do` sends exactly one reply for its job: the error with which the handler ended or panicked;
  -- else the error that the handler left in the job; else the job's result.
  pub do_job-sent :
      (hf : Handler V E) (j : ℕ) (w : World V E)
      → j < length (hf w).0.jobs
      → (job_at (do_job hf j w) j).sent
        ≡ (job_at (hf w).0 j).sent ++ reply_of (hf w).1 (job_at (hf w).0 j) ∷ []
  unfolding do_job
  do_job-sent hf j w h = send_reply (hf w).0 (hf w).1 j h
