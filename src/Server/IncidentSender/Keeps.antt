-- ===== src/Server/IncidentSender/Keeps.antt =====
-- The jobs that are queued, started and ended, and what every part of `trySend` does to them.
use hatohol.Base.{
  ℕ, ◌≡◌, refl, sym, ap, ◌∙◌, Bool, true, false, List, [], ◌∷◌, ◌++◌, append-nil, append_assoc,
  arith, if◌then◌else◌, length, length-append,
}
use package.hatohol.Server.IncidentSender.{
  JobStatus, job_queued, job_started, job_succeeded, job_failed, IncidentInfo, Job, Entry, notified,
  sent, recorded, Sender, Request, put_entry, write, push_job, request, requests, exit_request,
  exit_sync_request, queue_event_request, queue_incident_request, queue_event, queue_incident,
  allocate, call_of, event_job, incident_job,
}

abbrev pub is_queued : JobStatus → Bool
is_queued job_queued = true
is_queued _ = false

abbrev pub is_started : JobStatus → Bool
is_started job_started = true
is_started _ = false

-- A job ends in success or in failure.
abbrev pub is_ended : JobStatus → Bool
is_ended job_succeeded = true
is_ended job_failed = true
is_ended _ = false

module _ {E : Type 0} where
  -- The jobs that were notified of such a status, in order.
  abbrev pub pick : (JobStatus → Bool) → List (Entry E) → List (Job E)
  pick p [] = []
  pick p (notified job status call ∷ es) =
      let rest = pick p es in if p status then job ∷ rest else rest
  pick p (sent job err ∷ es) = pick p es
  pick p (recorded history ∷ es) = pick p es

  pub pick-append :
      (p : JobStatus → Bool) (es fs : List (Entry E)) → pick p (es ++ fs) ≡ pick p es ++ pick p fs
  pick-append p [] fs = refl
  pick-append p (notified job status call ∷ es) fs = ground (arith, pick-append p es fs)
  pick-append p (sent job err ∷ es) fs = pick-append p es fs
  pick-append p (recorded history ∷ es) fs = pick-append p es fs

  -- The jobs start in the order in which they are queued, and none is lost before.
  abbrev pub InOrder : Sender E → Type 0
  InOrder s = pick is_queued s.trace ≡ pick is_started s.trace ++ s.queue

  abbrev pub IsCounted : Sender E → Type 0
  IsCounted s = s.exit_requested ≡ false → s.job_semaphore ≡ length s.queue

  pub record Keeps (s t : Sender E) : Type 0 where
    pub started_kept : pick is_started t.trace ≡ pick is_started s.trace
    pub ended_kept : pick is_ended t.trace ≡ pick is_ended s.trace
    pub limit_kept : t.retry_limit ≡ s.retry_limit
    pub record_kept : t.should_record_incident_history ≡ s.should_record_incident_history
    pub exit_kept : s.exit_requested ≡ true → t.exit_requested ≡ true
    pub order_kept : InOrder s → InOrder t
    pub count_kept : IsCounted s → IsCounted t

  pub Keeps-refl : (s : Sender E) → Keeps s s
  Keeps-refl s = record {
    started_kept = refl;
    ended_kept = refl;
    limit_kept = refl;
    record_kept = refl;
    exit_kept = λ h. h;
    order_kept = λ h. h;
    count_kept = λ h. h;
  }

  pub Keeps-trans : {s t u : Sender E} → Keeps s t → Keeps t u → Keeps s u
  Keeps-trans k l = record {
    started_kept = l.started_kept ∙ k.started_kept;
    ended_kept = l.ended_kept ∙ k.ended_kept;
    limit_kept = l.limit_kept ∙ k.limit_kept;
    record_kept = l.record_kept ∙ k.record_kept;
    exit_kept = λ h. l.exit_kept (k.exit_kept h);
    order_kept = λ h. l.order_kept (k.order_kept h);
    count_kept = λ h. l.count_kept (k.count_kept h);
  }

  -- An entry that says neither that a job is queued, nor that it starts, nor that it ends.
  abbrev pub IsSilent : Entry E → Type 0
  IsSilent e =
      (pick is_queued (e ∷ []) ≡ [])
      × (pick is_started (e ∷ []) ≡ [])
      × (pick is_ended (e ∷ []) ≡ [])

  pub pick-silent :
      (p : JobStatus → Bool) (es : List (Entry E)) (e : Entry E)
      → pick p (e ∷ []) ≡ []
      → pick p (es ++ e ∷ []) ≡ pick p es
  pick-silent p es e h =
      pick-append p es (e ∷ []) ∙ ap (◌++◌ (pick p es)) h ∙ append-nil (pick p es)

  pub put_entry-Keeps : (e : Entry E) (s : Sender E) → IsSilent e → Keeps s (put_entry e s)
  put_entry-Keeps e s (q, b, d) = record {
    started_kept = pick-silent is_started s.trace e b;
    ended_kept = pick-silent is_ended s.trace e d;
    limit_kept = refl;
    record_kept = refl;
    exit_kept = λ h. h;
    order_kept = λ h.
        pick-silent is_queued s.trace e q
        ∙ h
        ∙ ap (λ l. l ++ s.queue) (sym (pick-silent is_started s.trace e b));
    count_kept = λ h. h;
  }

  pub write-Keeps : (p : ℕ) (info : IncidentInfo) (s : Sender E) → Keeps s (write p info s)
  write-Keeps p info s = record {
    started_kept = refl;
    ended_kept = refl;
    limit_kept = refl;
    record_kept = refl;
    exit_kept = λ h. h;
    order_kept = λ h. h;
    count_kept = λ h. h;
  }

  allocate-Keeps : (info : IncidentInfo) (s : Sender E) → Keeps s (allocate info s).1
  allocate-Keeps info s = record {
    started_kept = refl;
    ended_kept = refl;
    limit_kept = refl;
    record_kept = refl;
    exit_kept = λ h. h;
    order_kept = λ h. h;
    count_kept = λ h. h;
  }

  pub push_job-Keeps : (job : Job E) (s : Sender E) → Keeps s (push_job job s)
  push_job-Keeps job s =
      let e : Entry E = notified job job_queued (call_of job job_queued) in
      record {
        started_kept = pick-silent is_started s.trace e refl;
        ended_kept = pick-silent is_ended s.trace e refl;
        limit_kept = refl;
        record_kept = refl;
        exit_kept = λ h. h;
        order_kept = λ h.
            pick-append is_queued s.trace (e ∷ [])
            ∙ ap (λ l. l ++ job ∷ []) h
            ∙ append_assoc (pick is_started s.trace) s.queue (job ∷ [])
            ∙ ap (λ l. l ++ (s.queue ++ job ∷ [])) (sym (pick-silent is_started s.trace e refl));
        count_kept = λ h f. omega (arith, h f, length-append s.queue (job ∷ []));
      }

  -- All but that a job is queued: what the thread does itself.
  abbrev pub own : List (Entry E) → List (Entry E)
  own [] = []
  own (notified job status call ∷ es) =
      let rest = own es in if is_queued status then rest else notified job status call ∷ rest
  own (sent job err ∷ es) = sent job err ∷ own es
  own (recorded history ∷ es) = recorded history ∷ own es

  pub own-append : (es fs : List (Entry E)) → own (es ++ fs) ≡ own es ++ own fs
  own-append [] fs = refl
  own-append (notified job status call ∷ es) fs = ground (arith, own-append es fs)
  own-append (sent job err ∷ es) fs = ap (◌∷◌ (sent job err)) (own-append es fs)
  own-append (recorded history ∷ es) fs = ap (◌∷◌ (recorded history)) (own-append es fs)

  -- The thread does `es` from `s` to `t`.
  abbrev pub Adds : List (Entry E) → Sender E → Sender E → Type 0
  Adds es s t = own t.trace ≡ own s.trace ++ es

  pub Adds-refl : (s : Sender E) → Adds [] s s
  Adds-refl s = sym (append-nil (own s.trace))

  pub Adds-trans :
      (es fs : List (Entry E)) (s t u : Sender E) → Adds es s t → Adds fs t u → Adds (es ++ fs) s u
  Adds-trans es fs s t u p q = q ∙ ap (λ l. l ++ fs) p ∙ append_assoc (own s.trace) es fs

  pub put_entry-Adds : (e : Entry E) (s : Sender E) → Adds (own (e ∷ [])) s (put_entry e s)
  put_entry-Adds e s = own-append s.trace (e ∷ [])

module _ {E : Type 0} (blank : IncidentInfo) where
  pub request-Keeps : (r : Request E) (s : Sender E) → Keeps s (request blank r s)
  unfolding request queue_event queue_incident
  request-Keeps (queue_event_request e f d u) s =
      Keeps-trans (allocate-Keeps blank s)
        (push_job-Keeps (event_job e f d u s.next_address) (allocate blank s).1)
  request-Keeps (queue_incident_request i c f d u) s =
      Keeps-trans (allocate-Keeps i s)
        (push_job-Keeps (incident_job c f d u s.next_address) (allocate i s).1)
  request-Keeps exit_request s = record {
    started_kept = refl;
    ended_kept = refl;
    limit_kept = refl;
    record_kept = refl;
    exit_kept = λ h. refl;
    order_kept = λ h. h;
    count_kept = λ h f. cc;
  }
  request-Keeps exit_sync_request s = record {
    started_kept = refl;
    ended_kept = refl;
    limit_kept = refl;
    record_kept = refl;
    exit_kept = λ h. refl;
    order_kept = λ h. h;
    count_kept = λ h f. cc;
  }

  pub requests-Keeps : (rs : List (Request E)) (s : Sender E) → Keeps s (requests blank rs s)
  unfolding requests
  requests-Keeps [] s = Keeps-refl s
  requests-Keeps (r ∷ rs) s =
      Keeps-trans (request-Keeps r s) (requests-Keeps rs (request blank r s))

  request-Adds : (r : Request E) (s : Sender E) → own (request blank r s).trace ≡ own s.trace
  unfolding request queue_event queue_incident
  request-Adds (queue_event_request e f d u) s =
      let job : Job E = event_job e f d u s.next_address in
      own-append s.trace (notified job job_queued (call_of job job_queued) ∷ [])
      ∙ append-nil (own s.trace)
  request-Adds (queue_incident_request i c f d u) s =
      let job : Job E = incident_job c f d u s.next_address in
      own-append s.trace (notified job job_queued (call_of job job_queued) ∷ [])
      ∙ append-nil (own s.trace)
  request-Adds exit_request s = refl
  request-Adds exit_sync_request s = refl

  requests-own :
      (rs : List (Request E)) (s : Sender E) → own (requests blank rs s).trace ≡ own s.trace
  unfolding requests
  requests-own [] s = refl
  requests-own (r ∷ rs) s = requests-own rs (request blank r s) ∙ request-Adds r s

  pub requests-Adds : (rs : List (Request E)) (s : Sender E) → Adds [] s (requests blank rs s)
  requests-Adds rs s = requests-own rs s ∙ sym (append-nil (own s.trace))
