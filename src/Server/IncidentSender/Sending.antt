-- ===== src/Server/IncidentSender/Sending.antt =====
-- `trySend` and `mainThread` of server/src/IncidentSender.cc.
use hatohol.Base.{ℕ, zero, suc, ◌+◌, not, Option, none, some, List, leb, ◌==◌, if◌then◌else◌}
use hatohol.Base.Int.{ℤ}
use package.hatohol.Server.IncidentSender.{
  ok, not_implemented, failed_to_send_incident, auto_increment_value, job_waiting_retry,
  job_retrying, job_succeeded, job_failed, IncidentInfo, IncidentHistory, Job, sent, recorded,
  Sender, Request, Round, Attempt, left, retried, Iteration, blocked, ended, went_on, out_of_fuel,
  put_entry, notify_status, write, wait_next_job, requests,
}

module _ {E : Type 0} where
  abbrev pub answered : Job E → ℕ → Sender E → ℕ × Sender E
  answered job err s = (err, put_entry (sent job err) (record s { last_result = some err }))

  abbrev pub fill : Option ℕ → IncidentInfo → Sender E → Sender E
  fill none info s = s
  fill (some p) info s = write p info s

  unfoldable pub after_sleep : Job E → ℕ → Sender E → Attempt E
  after_sleep job result s =
      if s.exit_requested then left result s else retried result (notify_status job job_retrying s)

  unfoldable pub history_of : Job E → ℤ × ℤ → IncidentInfo → IncidentHistory
  history_of job now info = record {
    id = auto_increment_value;
    unified_event_id = info.unified_event_id;
    user_id = job.user_id;
    status = info.status;
    comment = job.comment;
    created_at = now;
  }

  abbrev pub save_history_of : Option ℕ → Job E → ℤ × ℤ → Sender E → Sender E
  save_history_of none job now s = s
  save_history_of (some p) job now s = put_entry (recorded (history_of job now (s.incident p))) s

  unfoldable pub save_incident_history : Job E → ℤ × ℤ → Sender E → Sender E
  save_incident_history job now s = save_history_of job.incident_info job now s

  -- The end of `trySend`, at the time `now`.
  unfoldable pub conclude : Job E → ℤ × ℤ → ℕ → Sender E → Sender E
  unfolding save_incident_history
  conclude job now result s =
      if result == ok
      then (notify_status job job_succeeded
          (if s.should_record_incident_history then save_incident_history job now s else s))
      else notify_status job job_failed s

  abbrev pub job_done : Sender E → Iteration E
  job_done s = went_on (record s { running_job = none })

module _ {E : Type 0} (blank : IncidentInfo) where
  abbrev pub send_to : Option E → Option ℕ → Round E → Job E → Sender E → ℕ × Sender E
  send_to (some e) p r job s =
      answered job r.answer (fill p r.filled (requests blank r.during_send s))
  send_to none (some p) r job s = answered job r.answer (requests blank r.during_send s)
  send_to none none r job s = answered job not_implemented s

  -- `Job::send`.
  unfoldable pub send : Round E → Job E → Sender E → ℕ × Sender E
  send r job s = send_to job.event_info job.incident_info r job s

  unfoldable pub after_send : Round E → Job E → ℕ → ℕ → Sender E → Attempt E
  unfolding after_sleep requests
  after_send r job i result s =
      if result == ok
      then left result s
      else if not (result == failed_to_send_incident)
      then left result s
      else if i == s.retry_limit
      then left result s
      else if s.exit_requested
      then left result s
      else after_sleep job result
          (requests blank r.during_sleep (notify_status job job_waiting_retry s))

  unfoldable pub attempt : Round E → Job E → ℕ → Sender E → Attempt E
  unfolding send after_send
  attempt r job i s = let (result, s') = send r job s in after_send r job i result s'

  unfoldable pub retry_loop : (ℕ → Round E) → ℕ → Job E → ℕ → ℕ → Sender E → Option (ℕ × Sender E)
  unfolding attempt
  retry_loop round zero job i result s = none
  retry_loop round (suc fuel) job i result s =
      if leb i s.retry_limit
      then elim (attempt (round i) job i s) [
        | left err s' ↦ some (err, s')
        | retried err s' ↦ retry_loop round fuel job (i + 1) err s'
      ]
      else some (result, s)

  unfoldable pub try_send : (ℕ → Round E) → ℤ × ℤ → Job E → Sender E → Option (ℕ × Sender E)
  unfolding retry_loop conclude
  try_send round now job s = elim (retry_loop round (suc s.retry_limit) job 0 not_implemented s) [
    | none ↦ none
    | some (result, s') ↦ some (result, conclude job now result s')
  ]

  unfoldable pub work : (ℕ → Round E) → ℤ × ℤ → Job E → Sender E → Iteration E
  unfolding try_send
  work round now job s =
      if s.exit_requested
      then job_done s
      else elim (try_send round now job s) [ none ↦ out_of_fuel | some (result, s') ↦ job_done s' ]

  unfoldable pub handle :
      (ℕ → Round E) → ℤ × ℤ → List (Request E) → Option (Job E) × Sender E → Iteration E
  unfolding work requests
  handle round now between (none, s) = ended s
  handle round now between (some job, s) = work round now job (requests blank between s)

  -- One turn of the loop of `mainThread`; other threads call `between` before the job is sent.
  unfoldable pub main_iteration : (ℕ → Round E) → ℤ × ℤ → List (Request E) → Sender E → Iteration E
  unfolding handle
  main_iteration round now between s =
      if s.job_semaphore == 0 then blocked else handle round now between (wait_next_job s)
