-- ===== src/Work/Sharing.antt =====
-- work.go: two jobs of one context. The handlers find their job as the context's current one, and
-- `NewJob` replaces it.
use mathlib.Core.Path.{subst}
use wgo.Common.{
  ℕ, ◌≡◌, ◌≢◌, ◌<◌, refl, sym, ap, ◌∙◌, Option, none, some, List, [], ◌∷◌, ◌++◌, Bytes, arith,
  length, get_or, get_or-set_ne, length-set, length-append, append_step, All,
}
use wgo.Work.{
  answer, Job, World, Outcome, returned, panicked, Handler, JobRoute, blank, job_at, new_job,
  save_access_log, continue_job, chain, apply_middlewares, route_handler, do_job,
}
use wgo.Work.Chain.{run_in_turn, route_handler-run_in_turn, do_job-sent, reply_of}

get_or-append_length :
    {A : Type 0} (xs : List A) (x : A) (ys : List A) (d : A)
    → get_or (xs ++ x ∷ ys) (length xs) d ≡ x
get_or-append_length [] x ys d = refl
get_or-append_length (y ∷ xs) x ys d = get_or-append_length xs x ys d

module _ {V E : Type 0} where
  -- From one state of the jobs to another only the current job changes, and stays the current one.
  pub record Touches (w v : World V E) : Type 0 where
    pub same_current : v.current ≡ w.current
    pub same_length : length v.jobs ≡ length w.jobs
    pub others : (j : ℕ) → j ≢ w.current → job_at v j ≡ job_at w j

  -- A handler that makes no job and touches none but its context's current one.
  abbrev pub Local : Handler V E → Type 0
  Local h = (w : World V E) → Touches w (h w).0

  pub Touches-trans : {u v w : World V E} → Touches u v → Touches v w → Touches u w
  Touches-trans {u} {v} {w} p q = record {
    same_current = q.same_current ∙ p.same_current;
    same_length = q.same_length ∙ p.same_length;
    others = λ j d. q.others j (λ e. d (e ∙ p.same_current)) ∙ p.others j d;
  }

  save_access_log-Touches : (w : World V E) → Touches w (save_access_log w.current w)
  unfolding save_access_log
  save_access_log-Touches w = record {
    same_current = refl;
    same_length = length-set w.jobs w.current _;
    others = λ j d. get_or-set_ne w.jobs w.current j _ (blank V E) (λ e. d (sym e));
  }

  continue_job-Touches : (w : World V E) (c : ℕ) → c ≡ w.current → Touches w (continue_job c w)
  unfolding continue_job
  continue_job-Touches w c h = record {
    same_current = refl;
    same_length = length-set w.jobs c _;
    others = λ j d. get_or-set_ne w.jobs c j _ (blank V E) (λ e. d (sym e ∙ h));
  }

  between-Touches :
      (w : World V E) → Touches w (continue_job w.current (save_access_log w.current w))
  between-Touches w =
      let p = save_access_log-Touches w in
      Touches-trans p (continue_job-Touches _ w.current (sym p.same_current))

  chain_rest-Touches :
      (g : Handler V E) (u w : World V E) (o : Outcome E)
      → Local g
      → Touches u w
      → Touches u (chain (λ _. (w, o)) g u).0
  unfolding chain
  chain_rest-Touches g u w (panicked e) l p = p
  chain_rest-Touches g u w (returned (some e)) l p = p
  chain_rest-Touches g u w (returned none) l p =
      Touches-trans p (Touches-trans (between-Touches w) (l _))

  chain-Local : (f g : Handler V E) → Local f → Local g → Local (chain f g)
  unfolding chain
  chain-Local f g lf lg w = chain_rest-Touches g w (f w).0 (f w).1 lg (lf w)

  run_in_turn-Local :
      (h : Handler V E) (hs : List (Handler V E))
      → Local h
      → All Local hs
      → Local (run_in_turn h hs)
  unfolding run_in_turn
  run_in_turn-Local h [] l ls = l
  run_in_turn-Local h (g ∷ gs) l ls =
      chain-Local h (run_in_turn g gs) l (run_in_turn-Local g gs ls.0 ls.1)

  new_job-job_at :
      (m m' : Bytes) (p p' : Option V) (w : World V E)
      → job_at (new_job m' p' (new_job m p w)) (length w.jobs)
        ≡ record (blank V E) { method = m; payload = p }
  unfolding new_job
  new_job-job_at m m' p p' w =
      ap (λ (l : List (Job V E)). get_or l (length w.jobs) (blank V E)) (append_step w.jobs _ _)
      ∙ get_or-append_length w.jobs _ _ (blank V E)

  new_job-current :
      (m m' : Bytes) (p p' : Option V) (w : World V E)
      → length w.jobs < (new_job m' p' (new_job m p w)).current
  unfolding new_job
  new_job-current m m' p p' w =
      omega (arith, length-append w.jobs (record (blank V E) { method = m; payload = p } ∷ []))

  new_job-bound :
      (m m' : Bytes) (p p' : Option V) (w : World V E)
      → length w.jobs < length (new_job m' p' (new_job m p w)).jobs
  unfolding new_job
  new_job-bound m m' p p' w = omega (
    arith,
    length-append w.jobs (record (blank V E) { method = m; payload = p } ∷ []),
    length-append (w.jobs ++ record (blank V E) { method = m; payload = p } ∷ [])
        (record (blank V E) { method = m'; payload = p' } ∷ []),
  )

  do_job-Local :
      (hf : Handler V E) (j : ℕ) (job : Job V E) (w : World V E)
      → Local hf
      → j < length w.jobs
      → j ≢ w.current
      → job_at w j ≡ job
      → (hf w).1 ≡ returned none
      → (job_at (do_job hf j w) j).sent ≡ job.sent ++ reply_of (returned none) job ∷ []
  do_job-Local hf j job w l lt d e ok =
      let t = l w in
      let after : Job V E = job_at (hf w).0 j in
      do_job-sent hf j w (omega (arith, t.same_length, lt))
      ∙ ap (λ (o : Outcome E). after.sent ++ reply_of o after ∷ []) ok
      ∙ ap (λ (x : Job V E). x.sent ++ reply_of (returned none) x ∷ []) (t.others j d ∙ e)

  -- A middleware that makes a handler of this kind from one of this kind.
  abbrev pub KeepsLocal : (Handler V E → Handler V E) → Type 0
  KeepsLocal m = (h : Handler V E) → Local h → Local (m h)

  apply_middlewares-Local :
      (ms : List (Handler V E → Handler V E)) (h : Handler V E)
      → All KeepsLocal ms
      → Local h
      → Local (apply_middlewares ms h)
  unfolding apply_middlewares
  apply_middlewares-Local [] h ks l = l
  apply_middlewares-Local (m ∷ ms) h ks l =
      ks.0 (apply_middlewares ms h) (apply_middlewares-Local ms h ks.1 l)

  -- A job of a context in which another job is made before a worker takes the first: when the
  -- handlers of its route, and its middlewares around such handlers, change no job but their
  -- context's current one and make none, and end without an error, the answer to the first job is
  -- no result at all, whatever its handlers computed.
  pub do_job-stale :
      (default : Handler V E) (r : JobRoute V E) (h : Handler V E) (hs : List (Handler V E))
      (m m' : Bytes) (p p' : Option V) (w : World V E)
      → r.handlers ≡ h ∷ hs
      → All KeepsLocal r.middlewares
      → Local h
      → All Local hs
      → (route_handler default (some r) (new_job m' p' (new_job m p w))).1 ≡ returned none
      → (job_at
          (do_job (route_handler default (some r)) (length w.jobs) (new_job m' p' (new_job m p w)))
          (length w.jobs)).sent
        ≡ answer none ∷ []
  do_job-stale default r h hs m m' p p' w eh ks l ls ok =
      let local : Local (route_handler default (some r)) =
        subst Local (sym (route_handler-run_in_turn default r h hs eh)) (
          apply_middlewares-Local r.middlewares (run_in_turn h hs) ks
            (run_in_turn-Local h hs l ls)) in
      let current = new_job-current m m' p p' w in
      do_job-Local (route_handler default (some r)) (length w.jobs)
        (record (blank V E) { method = m; payload = p }) (new_job m' p' (new_job m p w)) local
        (new_job-bound m m' p p' w) (λ e. omega (arith, e, current)) (new_job-job_at m m' p p' w) ok
