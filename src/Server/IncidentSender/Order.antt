-- ===== src/Server/IncidentSender/Order.antt =====
-- The order of the jobs over any history of requests and turns of the thread.
use hatohol.Base.{
  ℕ, suc, ◌-◌, ◌≡◌, refl, sym, ap, subst, ◌∙◌, ◌⊎◌, inl, inr, Bool, true, false, Option, none, some,
  List, [], ◌∷◌, ◌++◌, append_assoc, arith, ◌==◌, if◌then◌else◌, length,
}
use hatohol.Base.Int.{ℤ}
use package.hatohol.Server.IncidentSender.{
  not_implemented, job_started, IncidentInfo, Job, Entry, notified, Sender, Request, Round,
  Iteration, blocked, ended, went_on, out_of_fuel, init, pop_front, request, requests, call_of,
}
use package.hatohol.Server.IncidentSender.Sending.{
  conclude, try_send, job_done, work, handle, main_iteration,
}
use package.hatohol.Server.IncidentSender.Keeps.{
  is_queued, is_started, is_ended, pick, pick-append, pick-silent, InOrder, IsCounted, Keeps,
  request-Keeps, requests-Keeps,
}
use package.hatohol.Server.IncidentSender.Retries.{retry_loop-Looped}
use package.hatohol.Server.IncidentSender.Ending.{Concluded, conclude-Concluded}

-- The states that a new sender reaches; the thread has not ended while the first argument is true.
pub data Reach {E : Type 0} (blank : IncidentInfo) : Bool → Sender E → Type 0 where
  starts : (record_history : Bool) → Reach blank true (init blank record_history)
  asked :
      {b : Bool} {s : Sender E} (r : Request E)
      → Reach blank b s
      → Reach blank b (request blank r s)
  turned :
      {s t : Sender E} (round : ℕ → Round E) (now : ℤ × ℤ) (between : List (Request E))
      → Reach blank true s
      → main_iteration blank round now between s ≡ went_on t
      → Reach blank true t
  stopped :
      {s t : Sender E} (round : ℕ → Round E) (now : ℤ × ℤ) (between : List (Request E))
      → Reach blank true s
      → main_iteration blank round now between s ≡ ended t
      → Reach blank false t

module _ {E : Type 0} (blank : IncidentInfo) where
  -- Each job that was started has ended, but for one that an exit met.
  pub record IsOrderly (s : Sender E) : Type 0 where
    pub in_order : InOrder s
    pub is_counted : IsCounted s
    pub served :
        (pick is_ended s.trace ≡ pick is_started s.trace)
        ⊎ ((s.exit_requested ≡ true)
            × (job : Job E) × (pick is_started s.trace ≡ pick is_ended s.trace ++ job ∷ []))

  Keeps-IsOrderly : {s t : Sender E} → Keeps s t → IsOrderly s → IsOrderly t
  Keeps-IsOrderly k o = record {
    in_order = k.order_kept o.in_order;
    is_counted = k.count_kept o.is_counted;
    served = elim o.served [
      | inl e ↦ inl (k.ended_kept ∙ e ∙ sym k.started_kept)
      | inr (x, job, e) ↦
          inr (k.exit_kept x, job, k.started_kept ∙ e ∙ ap (λ l. l ++ job ∷ []) (sym k.ended_kept))
    ];
  }

  -- `job` runs: it is the only one that was started and has not ended.
  record Runs (job : Job E) (s : Sender E) : Type 0 where
    in_order : InOrder s
    is_counted : IsCounted s
    runs : pick is_started s.trace ≡ pick is_ended s.trace ++ job ∷ []

  Keeps-Runs : {job : Job E} {s t : Sender E} → Keeps s t → Runs job s → Runs job t
  Keeps-Runs {job} k o = record {
    in_order = k.order_kept o.in_order;
    is_counted = k.count_kept o.is_counted;
    runs = k.started_kept ∙ o.runs ∙ ap (λ l. l ++ job ∷ []) (sym k.ended_kept);
  }

  Concluded-IsOrderly :
      {job : Job E} {now : ℤ × ℤ} {s t : Sender E}
      → Concluded job now s t
      → Runs job s
      → IsOrderly t
  Concluded-IsOrderly {job} {now} {s} {t} c o = record {
    in_order =
        c.queued_same
        ∙ o.in_order
        ∙ ap (◌++◌ (pick is_started s.trace)) (sym c.queue_same)
        ∙ ap (λ l. l ++ t.queue) (sym c.started_same);
    is_counted =
        λ f. c.semaphore_same ∙ o.is_counted (sym c.exit_same ∙ f) ∙ ap length (sym c.queue_same);
    served = inl (c.ended_more ∙ sym o.runs ∙ sym c.started_same);
  }

  -- A turn of the thread does not run out of fuel, and ends the thread only when an exit is requested.
  abbrev Turned : Iteration E → Type 0
  Turned blocked = Unit {0}
  Turned (ended t) = IsOrderly t × (t.exit_requested ≡ true)
  Turned (went_on t) = IsOrderly t
  Turned out_of_fuel = ⊥

  pub if-Turned :
      (b : Bool) (x y : Iteration E)
      → (b ≡ true → Turned x)
      → (b ≡ false → Turned y)
      → Turned (if b then x else y)
  if-Turned true x y f g = f refl
  if-Turned false x y f g = g refl

  tried-Turned :
      (o : Option (ℕ × Sender E)) (r : ℕ) (t : Sender E)
      → o ≡ some (r, t)
      → IsOrderly t
      → Turned (elim o [ none ↦ out_of_fuel | some (result, s) ↦ job_done s ])
  tried-Turned none r t e o = absurd (cc)
  tried-Turned (some (q, u)) r t e o =
      let same : u ≡ t = ap (λ p. elim p [ none ↦ u | some (a, b) ↦ b ]) e in
      let v : IsOrderly u = subst IsOrderly (sym same) o in
      record { in_order = v.in_order; is_counted = v.is_counted; served = v.served }

  work-Turned :
      (round : ℕ → Round E) (now : ℤ × ℤ) (job : Job E) (s : Sender E)
      → Runs job s
      → Turned (work blank round now job s)
  unfolding work try_send
  work-Turned round now job s o =
      if-Turned s.exit_requested (job_done s) _
        (λ x. record {
          in_order = o.in_order;
          is_counted = o.is_counted;
          served = inr (x, job, o.runs);
        })
        (λ _.
          let (r, t, es, returned, tried, (added, k)) =
            retry_loop-Looped blank job round (suc s.retry_limit) 0 not_implemented s (omega arith)
              (omega arith) in
          tried-Turned (try_send blank round now job s) r (conclude job now r t)
            (ap
              (λ (o : Option (ℕ × Sender E)). elim o as (λ _. Option (ℕ × Sender E)) [
                | none ↦ none
                | some (q, u) ↦ some (q, conclude job now q u)
              ])
              returned)
            (Concluded-IsOrderly (conclude-Concluded job now r t) (Keeps-Runs k o)))

  started-Runs :
      (job : Job E) (rest : List (Job E)) (s : Sender E)
      → s.queue ≡ job ∷ rest
      → s.exit_requested ≡ false
      → IsOrderly s
      → Runs job (pop_front (job ∷ rest) (record s { job_semaphore = s.job_semaphore - 1 })).1
  started-Runs job rest s q f o =
      let e : Entry E = notified job job_started (call_of job job_started) in
      record {
        in_order =
            pick-silent is_queued s.trace e refl
            ∙ o.in_order
            ∙ ap (◌++◌ (pick is_started s.trace)) q
            ∙ sym (append_assoc (pick is_started s.trace) (job ∷ []) rest)
            ∙ ap (λ l. l ++ rest) (sym (pick-append is_started s.trace (e ∷ [])));
        is_counted = λ x. omega (arith, o.is_counted f, ap length q);
        runs =
            pick-append is_started s.trace (e ∷ [])
            ∙ ap (λ l. l ++ job ∷ []) (elim o.served [ inl d ↦ sym d | inr (x, k, r) ↦ cc ])
            ∙ ap (λ l. l ++ job ∷ []) (sym (pick-silent is_ended s.trace e refl));
      }

  popped-Turned :
      (round : ℕ → Round E) (now : ℤ × ℤ) (between : List (Request E)) (q : List (Job E))
      (s : Sender E)
      → s.queue ≡ q
      → s.exit_requested ≡ false
      → (s.job_semaphore == 0) ≡ false
      → IsOrderly s
      → Turned (
          handle blank round now between
            (pop_front q (record s { job_semaphore = s.job_semaphore - 1 })))
  unfolding handle
  popped-Turned round now between [] s q f n o =
      absurd (ground (arith, o.is_counted f, ap length q, n))
  popped-Turned round now between (job ∷ rest) s q f n o =
      let u : Sender E =
        (pop_front (job ∷ rest) (record s { job_semaphore = s.job_semaphore - 1 })).1 in
      work-Turned round now job (requests blank between u)
        (Keeps-Runs (requests-Keeps blank between u) (started-Runs job rest s q f o))

  woken-Turned :
      (round : ℕ → Round E) (now : ℤ × ℤ) (between : List (Request E)) (b : Bool) (s : Sender E)
      → s.exit_requested ≡ b
      → (s.job_semaphore == 0) ≡ false
      → IsOrderly s
      → Turned (
          handle blank round now between (
            if b
            then (none, record s { job_semaphore = s.job_semaphore - 1 })
            else pop_front s.queue (record s { job_semaphore = s.job_semaphore - 1 })))
  unfolding handle
  woken-Turned round now between true s x n o =
      (record { in_order = o.in_order; is_counted = λ f. cc; served = o.served }, x)
  woken-Turned round now between false s x n o =
      popped-Turned round now between s.queue s refl x n o

  main_iteration-Turned :
      (round : ℕ → Round E) (now : ℤ × ℤ) (between : List (Request E)) (s : Sender E)
      → IsOrderly s
      → Turned (main_iteration blank round now between s)
  unfolding main_iteration
  main_iteration-Turned round now between s o =
      if-Turned (s.job_semaphore == 0) blocked _ (λ _. tt)
        (λ n. woken-Turned round now between s.exit_requested s refl n o)

  -- In each state that a new sender reaches, whatever the senders answer and whenever other threads
  -- queue jobs or request an exit: the jobs are started in the order in which they were queued and those
  -- that were not are in the queue; each that was started has ended, in success or in failure, but for
  -- one that an exit met before it was sent; unless an exit is requested, the semaphore counts
  -- the queue; and the thread ends only when an exit is requested.
  pub Reach-IsOrderly :
      {b : Bool} {s : Sender E}
      → Reach blank b s
      → IsOrderly s × ((b ≡ true) ⊎ (s.exit_requested ≡ true))
  Reach-IsOrderly (starts r) =
      (record { in_order = refl; is_counted = λ _. refl; served = inl refl }, inl refl)
  Reach-IsOrderly (asked {b} {s} r p) =
      let (o, x) = Reach-IsOrderly p in
      (
        Keeps-IsOrderly (request-Keeps blank r s) o,
        elim x [ inl e ↦ inl e | inr e ↦ inr ((request-Keeps blank r s).exit_kept e) ],
      )
  Reach-IsOrderly (turned {s} {t} round now between p e) =
      let (o, x) = Reach-IsOrderly p in
      (subst Turned e (main_iteration-Turned round now between s o), inl refl)
  Reach-IsOrderly (stopped {s} {t} round now between p e) =
      let (o, x) = Reach-IsOrderly p in
      let (u, y) = subst Turned e (main_iteration-Turned round now between s o) in (u, inr y)
