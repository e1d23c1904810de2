-- ===== src/Server/IncidentSender/Progress.antt =====
-- The thread does not wait while there are jobs in the queue.
use hatohol.Base.{
  ℕ, suc, ◌-◌, ◌≡◌, refl, sym, ap, subst, ◌∙◌, Bool, true, false, Option, none, some, List, [], ◌∷◌,
  ◌++◌, arith, ◌==◌, if◌then◌else◌, if-true, if-false, length,
}
use hatohol.Base.Int.{ℤ}
use package.hatohol.Server.IncidentSender.{
  not_implemented, job_started, IncidentInfo, Job, Entry, notified, Sender, Request, Round,
  Iteration, blocked, ended, went_on, out_of_fuel, pop_front, requests, call_of,
}
use package.hatohol.Server.IncidentSender.Sending.{
  conclude, try_send, job_done, work, handle, main_iteration,
}
use package.hatohol.Server.IncidentSender.Keeps.{is_started, pick, pick-append, requests-Keeps}
use package.hatohol.Server.IncidentSender.Retries.{retry_loop-Looped}
use package.hatohol.Server.IncidentSender.Ending.{conclude-Concluded}
use package.hatohol.Server.IncidentSender.Order.{Reach, Reach-IsOrderly}

module _ {E : Type 0} (blank : IncidentInfo) (started : List (Job E)) where
  -- The thread goes on, and `started` are the jobs that it has started.
  abbrev pub GoesOn : Iteration E → Type 0
  GoesOn blocked = ⊥
  GoesOn (ended t) = ⊥
  GoesOn (went_on t) = pick is_started t.trace ≡ started
  GoesOn out_of_fuel = ⊥

  if-GoesOn : (b : Bool) (x y : Iteration E) → GoesOn x → GoesOn y → GoesOn (if b then x else y)
  if-GoesOn true x y p q = p
  if-GoesOn false x y p q = q

  tried-GoesOn :
      (o : Option (ℕ × Sender E)) (r : ℕ) (t : Sender E)
      → o ≡ some (r, t)
      → pick is_started t.trace ≡ started
      → GoesOn (elim o [ none ↦ out_of_fuel | some (result, s) ↦ job_done s ])
  tried-GoesOn none r t e h = absurd (cc)
  tried-GoesOn (some (q, u)) r t e h =
      let same : u ≡ t = ap (λ p. elim p [ none ↦ u | some (a, b) ↦ b ]) e in
      ap (λ (v : Sender E). pick is_started v.trace) same ∙ h

  work-GoesOn :
      (round : ℕ → Round E) (now : ℤ × ℤ) (job : Job E) (s : Sender E)
      → pick is_started s.trace ≡ started
      → GoesOn (work blank round now job s)
  unfolding work try_send
  work-GoesOn round now job s h =
      let (r, t, es, returned, tried, (added, k)) =
        retry_loop-Looped blank job round (suc s.retry_limit) 0 not_implemented s (omega arith)
          (omega arith) in
      if-GoesOn s.exit_requested (job_done s) _ h (
        tried-GoesOn (try_send blank round now job s) r (conclude job now r t)
          (ap
            (λ (o : Option (ℕ × Sender E)). elim o as (λ _. Option (ℕ × Sender E)) [
              | none ↦ none
              | some (q, u) ↦ some (q, conclude job now q u)
            ])
            returned)
          ((conclude-Concluded job now r t).started_same ∙ k.started_kept ∙ h))

module _ {E : Type 0} (blank : IncidentInfo) where
  abbrev pub StartsJob : List (Job E) → Sender E → Iteration E → Type 0
  StartsJob [] s i = i ≡ blocked
  StartsJob (job ∷ rest) s i = GoesOn blank (pick is_started s.trace ++ job ∷ []) i

  popped-GoesOn :
      (round : ℕ → Round E) (now : ℤ × ℤ) (between : List (Request E)) (q : List (Job E))
      (s : Sender E)
      → s.queue ≡ q
      → s.exit_requested ≡ false
      → s.job_semaphore ≡ length s.queue
      → StartsJob q s (
          if s.job_semaphore == 0
          then blocked
          else handle blank round now between (
              if s.exit_requested
              then (none, record s { job_semaphore = s.job_semaphore - 1 })
              else pop_front q (record s { job_semaphore = s.job_semaphore - 1 })))
  unfolding handle
  popped-GoesOn round now between [] s q f n =
      if-true {b = s.job_semaphore == 0} _ _ (ground (arith, n, ap length q))
  popped-GoesOn round now between (job ∷ rest) s q f n =
      let woken : Sender E = record s { job_semaphore = s.job_semaphore - 1 } in
      let u : Sender E = (pop_front (job ∷ rest) woken).1 in
      let e : Entry E = notified job job_started (call_of job job_started) in
      let goal : Iteration E → Type 0 = GoesOn blank (pick is_started s.trace ++ job ∷ []) in
      subst goal (sym (if-false {b = s.job_semaphore == 0} _ _ (ground (arith, n, ap length q)))) (
        subst (λ p. goal (handle blank round now between p))
          (sym (if-false (none, woken) (some job, u) f))
          (work-GoesOn blank (pick is_started s.trace ++ job ∷ []) round now job
            (requests blank between u)
            ((requests-Keeps blank between u).started_kept
              ∙ pick-append is_started s.trace (e ∷ []))))

  -- Unless an exit is requested, a turn of the thread starts the job that was queued first and goes on,
  -- and it waits when the queue is empty.
  pub main_iteration-StartsJob :
      {s : Sender E} (round : ℕ → Round E) (now : ℤ × ℤ) (between : List (Request E))
      → Reach blank true s
      → s.exit_requested ≡ false
      → StartsJob s.queue s (main_iteration blank round now between s)
  unfolding main_iteration
  main_iteration-StartsJob {s} round now between p f =
      popped-GoesOn round now between s.queue s refl f ((Reach-IsOrderly blank p).0.is_counted f)
