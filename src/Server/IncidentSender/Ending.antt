-- ===== src/Server/IncidentSender/Ending.antt =====
-- How `trySend` ends, and how often it sends.
use hatohol.Base.{
  ℕ, suc, ◌+◌, ◌≤◌, ◌≡◌, refl, sym, ap, subst, ◌∙◌, Bool, true, false, Option, none, some, List, [],
  ◌∷◌, ◌++◌, append-nil, append_assoc, arith, ◌==◌, if◌then◌else◌,
}
use hatohol.Base.Int.{ℤ}
use package.hatohol.Server.IncidentSender.{
  ok, not_implemented, JobStatus, job_succeeded, job_failed, IncidentInfo, IncidentHistory, Job,
  Entry, notified, sent, recorded, Sender, Round, put_entry, notify_status, call_of,
}
use package.hatohol.Server.IncidentSender.Sending.{
  save_history_of, history_of, save_incident_history, conclude, try_send,
}
use package.hatohol.Server.IncidentSender.Keeps.{
  is_queued, is_started, is_ended, pick, pick-append, pick-silent, own, own-append,
}
use package.hatohol.Server.IncidentSender.Retries.{
  Tried, stops, interrupted, retries, retry_loop-Looped,
}

module _ {E : Type 0} where
  abbrev pub succeeded : Job E → Entry E
  succeeded job = notified job job_succeeded (call_of job job_succeeded)

  abbrev pub failed : Job E → Entry E
  failed job = notified job job_failed (call_of job job_failed)

  -- What follows the last attempt.
  abbrev pub ending : Job E → Bool → IncidentHistory → ℕ → List (Entry E)
  ending job record_history h result =
      if result == ok
      then if record_history then recorded h ∷ succeeded job ∷ [] else succeeded job ∷ []
      else failed job ∷ []

  -- How often a job is sent.
  abbrev pub sends : List (Entry E) → ℕ
  sends [] = 0
  sends (notified job status call ∷ es) = sends es
  sends (sent job err ∷ es) = suc (sends es)
  sends (recorded history ∷ es) = sends es

  Tried-sends :
      {job : Job E} {limit : ℕ} {exited : Bool} {i r : ℕ} {es : List (Entry E)}
      → Tried job limit exited i r es
      → (1 ≤ sends es) × (sends es + i ≤ suc limit)
  Tried-sends (stops l k) = omega arith
  Tried-sends (interrupted l e f) = omega arith
  Tried-sends (retries l e t) = omega (arith, Tried-sends t)

module _ {E : Type 0} (job : Job E) (now : ℤ × ℤ) where
  -- What the end of `trySend` changes.
  pub record Concluded (s t : Sender E) : Type 0 where
    pub queued_same : pick is_queued t.trace ≡ pick is_queued s.trace
    pub started_same : pick is_started t.trace ≡ pick is_started s.trace
    pub ended_more : pick is_ended t.trace ≡ pick is_ended s.trace ++ job ∷ []
    pub queue_same : t.queue ≡ s.queue
    pub semaphore_same : t.job_semaphore ≡ s.job_semaphore
    pub exit_same : t.exit_requested ≡ s.exit_requested
    pub incident_same : t.incident ≡ s.incident

  notified-Concluded :
      (status : JobStatus) (s : Sender E)
      → is_queued status ≡ false
      → is_started status ≡ false
      → is_ended status ≡ true
      → Concluded s (notify_status job status s)
  notified-Concluded status s q b d =
      let e : Entry E = notified job status (call_of job status) in
      record {
        queued_same =
            pick-append is_queued s.trace (e ∷ []) ∙ rw q (append-nil (pick is_queued s.trace));
        started_same =
            pick-append is_started s.trace (e ∷ []) ∙ rw b (append-nil (pick is_started s.trace));
        ended_more = pick-append is_ended s.trace (e ∷ []) ∙ rw d refl;
        queue_same = refl;
        semaphore_same = refl;
        exit_same = refl;
        incident_same = refl;
      }

  recorded-Concluded :
      (h : IncidentHistory) (s t : Sender E)
      → Concluded (put_entry (recorded h) s) t
      → Concluded s t
  recorded-Concluded h s t c = record {
    queued_same = c.queued_same ∙ pick-silent is_queued s.trace (recorded h) refl;
    started_same = c.started_same ∙ pick-silent is_started s.trace (recorded h) refl;
    ended_more =
        c.ended_more ∙ ap (λ l. l ++ job ∷ []) (pick-silent is_ended s.trace (recorded h) refl);
    queue_same = c.queue_same;
    semaphore_same = c.semaphore_same;
    exit_same = c.exit_same;
    incident_same = c.incident_same;
  }

  concluded :
      (b flag : Bool) (p : Option ℕ) (s : Sender E)
      → Concluded s (
          if b
          then notify_status job job_succeeded (if flag then save_history_of p job now s else s)
          else notify_status job job_failed s)
  concluded true true none s = notified-Concluded job_succeeded s refl refl refl
  concluded true true (some p) s =
      let h : IncidentHistory = history_of job now (s.incident p) in
      recorded-Concluded h s _
        (notified-Concluded job_succeeded (put_entry (recorded h) s) refl refl refl)
  concluded true false p s = notified-Concluded job_succeeded s refl refl refl
  concluded false flag p s = notified-Concluded job_failed s refl refl refl

  pub conclude-Concluded : (result : ℕ) (s : Sender E) → Concluded s (conclude job now result s)
  unfolding conclude save_incident_history
  conclude-Concluded result s =
      concluded (result == ok) s.should_record_incident_history job.incident_info s

module _ {E : Type 0} (job : Job E) (now : ℤ × ℤ) (p : ℕ)
    (address : job.incident_info ≡ some p) where
  concluded_own :
      (b flag : Bool) (s : Sender E)
      → own
          (if b
            then notify_status job job_succeeded
                (if flag then save_history_of (some p) job now s else s)
            else notify_status job job_failed s).trace
        ≡ own s.trace
          ++ (if b
              then if flag
                then recorded (history_of job now (s.incident p)) ∷ succeeded job ∷ []
                else succeeded job ∷ []
              else failed job ∷ [])
  concluded_own true true s =
      let h : Entry E = recorded (history_of job now (s.incident p)) in
      own-append (s.trace ++ h ∷ []) (succeeded job ∷ [])
      ∙ ap (λ l. l ++ succeeded job ∷ []) (own-append s.trace (h ∷ []))
      ∙ append_assoc (own s.trace) (h ∷ []) (succeeded job ∷ [])
  concluded_own true false s = own-append s.trace (succeeded job ∷ [])
  concluded_own false flag s = own-append s.trace (failed job ∷ [])

  conclude-own :
      (result : ℕ) (s : Sender E)
      → own (conclude job now result s).trace
        ≡ own s.trace
          ++ ending job s.should_record_incident_history (history_of job now (s.incident p)) result
  unfolding conclude save_incident_history
  conclude-own result s =
      subst
        (λ o.
          own
            (if result == ok
              then notify_status job job_succeeded
                  (if s.should_record_incident_history then save_history_of o job now s else s)
              else notify_status job job_failed s).trace
          ≡ own s.trace
            ++ ending job s.should_record_incident_history (history_of job now (s.incident p))
                result)
        (sym address) (concluded_own (result == ok) s.should_record_incident_history s)

  -- `trySend` returns. The job is sent at least once and at most as often as the limit of retries and
  -- once more. Each attempt but the last failed to send, and is followed by the notices that the job
  -- waits and that it is sent again; the last one is at the limit, or did not fail to send, or an exit
  -- is requested, before or behind the notice that the job waits. Then the job is notified of success or
  -- of failure by the last answer, behind its history if it is to be recorded. The job has the
  -- address of an incident.
  pub try_send-Tried :
      (blank : IncidentInfo) (round : ℕ → Round E) (s : Sender E)
      → (r : ℕ) × (t : Sender E) × (es : List (Entry E)) × (try_send blank round now job s
          ≡ some (r, t))
        × Tried job s.retry_limit t.exit_requested 0 r es
        × (own t.trace
            ≡ own s.trace
              ++ (es
                  ++ ending job s.should_record_incident_history
                      (history_of job now (t.incident p))
                      r))
        × (1 ≤ sends es)
        × (sends es ≤ suc s.retry_limit)
  unfolding try_send
  try_send-Tried blank round s =
      let (r, t, es, returned, tried, (added, k)) =
        retry_loop-Looped blank job round (suc s.retry_limit) 0 not_implemented s (omega arith)
          (omega arith) in
      let h = history_of job now (t.incident p) in
      let l = Tried-sends tried in
      (
        r,
        conclude job now r t,
        es,
        ap
            (λ (o : Option (ℕ × Sender E)). elim o as (λ _. Option (ℕ × Sender E)) [
              | none ↦ none
              | some (q, u) ↦ some (q, conclude job now q u)
            ])
            returned,
        subst (λ e. Tried job s.retry_limit e 0 r es)
            (sym (conclude-Concluded job now r t).exit_same) tried,
        conclude-own r t
            ∙ ap (λ l. l ++ ending job t.should_record_incident_history h r) added
            ∙ append_assoc (own s.trace) es (ending job t.should_record_incident_history h r)
            ∙ ap (λ b. own s.trace ++ (es ++ ending job b h r)) k.record_kept
            ∙ ap
                (λ f.
                  own s.trace
                  ++ (es
                      ++ ending job s.should_record_incident_history (history_of job now (f p)) r))
                (sym (conclude-Concluded job now r t).incident_same),
        l.0,
        omega (arith, l.1),
      )
