-- ===== src/Server/IncidentSender.antt =====
-- server/src/IncidentSender.cc: the queue of jobs that send incidents to a tracker, and the thread
-- that works on it. `E` is the type EventInfo, which the sender only passes on; an IncidentInfo is
-- reached through its address. What a subclass's `send` answers, and what other threads do meanwhile,
-- are arguments. The trace has what the sender does in order.
pub mod Sending
pub mod Keeps
pub mod Order
pub mod Retries
pub mod Ending
pub mod Progress
use hatohol.Base.{
  ℕ, zero, suc, ◌+◌, ◌-◌, ◌≡◌, Bool, true, false, not, Option, none, some, List, [], ◌∷◌, ◌++◌,
  ◌==◌, leb, if◌then◌else◌, Bytes,
}
use hatohol.Base.Int.{ℤ, pos}

-- The enumerators of HatoholErrorCode that the queue reads or makes.
abbrev pub ok : ℕ
ok = 0

abbrev pub not_implemented : ℕ
not_implemented = 3

abbrev pub failed_to_send_incident : ℕ
failed_to_send_incident = 48

abbrev pub default_retry_limit : ℕ
default_retry_limit = 3

abbrev pub auto_increment_value : ℕ
auto_increment_value = 0

pub data JobStatus : Type 0 where
  job_queued : JobStatus
  job_started : JobStatus
  job_waiting_retry : JobStatus
  job_retrying : JobStatus
  job_succeeded : JobStatus
  job_failed : JobStatus

pub record IncidentInfo : Type 0 where
  pub tracker_id : ℤ
  pub server_id : ℤ
  pub event_id : Bytes
  pub trigger_id : Bytes
  pub identifier : Bytes
  pub location : Bytes
  pub status : Bytes
  pub priority : Bytes
  pub assignee : Bytes
  pub done_ratio : ℤ
  pub created_at : ℤ × ℤ
  pub updated_at : ℤ × ℤ
  pub status_code : ℕ
  pub unified_event_id : ℕ
  pub comment_count : ℤ

pub record IncidentHistory : Type 0 where
  pub id : ℕ
  pub unified_event_id : ℕ
  pub user_id : ℤ
  pub status : Bytes
  pub comment : Bytes
  pub created_at : ℤ × ℤ

-- A callback is the address of a function, and a null pointer is `none`.
pub record Job (E : Type 0) : Type 0 where
  pub user_id : ℤ
  pub event_info : Option E
  pub incident_info : Option ℕ
  pub comment : Bytes
  pub create_callback : Option ℕ
  pub update_callback : Option ℕ
  pub user_data : ℕ

-- A call of a callback.
pub data Call (E : Type 0) : Type 0 where
  created : ℕ → E → JobStatus → ℕ → Call E
  updated : ℕ → ℕ → JobStatus → ℕ → Call E

-- `notifyStatus` with the callback that it calls, `send` with its answer, a history that is stored.
pub data Entry (E : Type 0) : Type 0 where
  notified : Job E → JobStatus → Option (Call E) → Entry E
  sent : Job E → ℕ → Entry E
  recorded : IncidentHistory → Entry E

pub record Sender (E : Type 0) : Type 0 where
  pub queue : List (Job E)
  pub running_job : Option (Job E)
  pub job_semaphore : ℕ
  pub retry_limit : ℕ
  pub last_result : Option ℕ
  pub should_record_incident_history : Bool
  pub exit_requested : Bool
  pub incident : ℕ → IncidentInfo
  pub next_address : ℕ
  pub trace : List (Entry E)

-- What other threads call.
pub data Request (E : Type 0) : Type 0 where
  queue_event_request : E → Option ℕ → ℕ → ℤ → Request E
  queue_incident_request : IncidentInfo → Bytes → Option ℕ → ℕ → ℤ → Request E
  exit_request : Request E
  exit_sync_request : Request E

-- A round of `trySend`: what `send` answers and leaves in the incident of a new one, and what other
-- threads call while it runs and while the thread sleeps.
pub record Round (E : Type 0) : Type 0 where
  pub during_send : List (Request E)
  pub answer : ℕ
  pub filled : IncidentInfo
  pub during_sleep : List (Request E)

-- The loop of `trySend` is left, or another round follows.
pub data Attempt (E : Type 0) : Type 0 where
  left : ℕ → Sender E → Attempt E
  retried : ℕ → Sender E → Attempt E

pub data Iteration (E : Type 0) : Type 0 where
  blocked : Iteration E
  ended : Sender E → Iteration E
  went_on : Sender E → Iteration E
  out_of_fuel : Iteration E

module _ {E : Type 0} where
  abbrev pub init : IncidentInfo → Bool → Sender E
  init blank record_history = record {
    queue = [];
    running_job = none;
    job_semaphore = 0;
    retry_limit = default_retry_limit;
    last_result = none;
    should_record_incident_history = record_history;
    exit_requested = false;
    incident = λ _. blank;
    next_address = 0;
    trace = [];
  }

  abbrev pub put_entry : Entry E → Sender E → Sender E
  put_entry e s = record s { trace = s.trace ++ e ∷ [] }

  abbrev pub update_call_of : Job E → JobStatus → Option (Call E)
  update_call_of job status = elim job.incident_info [
    | none ↦ none
    | some p ↦ elim job.update_callback [
      | none ↦ none
      | some f ↦ some (updated f p status job.user_data)
    ]
  ]

  abbrev pub call_of : Job E → JobStatus → Option (Call E)
  call_of job status = elim job.event_info [
    | none ↦ update_call_of job status
    | some e ↦ elim job.create_callback [
      | none ↦ update_call_of job status
      | some f ↦ some (created f e status job.user_data)
    ]
  ]

  abbrev pub notify_status : Job E → JobStatus → Sender E → Sender E
  notify_status job status s = put_entry (notified job status (call_of job status)) s

  abbrev pub write : ℕ → IncidentInfo → Sender E → Sender E
  write p info s = record s { incident = λ q. if p == q then info else s.incident q }

  -- `new IncidentInfo(info)`.
  abbrev pub allocate : IncidentInfo → Sender E → ℕ × Sender E
  allocate info s =
      (s.next_address, record (write s.next_address info s) { next_address = suc s.next_address })

  abbrev pub push_job : Job E → Sender E → Sender E
  push_job job s =
      let pushed = notify_status job job_queued (record s { queue = s.queue ++ job ∷ [] }) in
      record pushed { job_semaphore = suc pushed.job_semaphore }

  -- The second argument is what `queue` is before the call.
  abbrev pub pop_front : List (Job E) → Sender E → Option (Job E) × Sender E
  pop_front [] s = (none, record s { running_job = none })
  pop_front (job ∷ rest) s =
      (some job, notify_status job job_started (record s { queue = rest; running_job = some job }))

  abbrev pub pop_job : Sender E → Option (Job E) × Sender E
  pop_job s = pop_front s.queue s

  -- Behind the semaphore's `wait`.
  abbrev pub wait_next_job : Sender E → Option (Job E) × Sender E
  wait_next_job s =
      let woken = record s { job_semaphore = s.job_semaphore - 1 } in
      if woken.exit_requested then (none, woken) else pop_job woken

  abbrev pub event_job : E → Option ℕ → ℕ → ℤ → ℕ → Job E
  event_job e callback user_data user_id p = record {
    user_id = user_id;
    event_info = some e;
    incident_info = some p;
    comment = [];
    create_callback = callback;
    update_callback = none;
    user_data = user_data;
  }

  abbrev pub incident_job : Bytes → Option ℕ → ℕ → ℤ → ℕ → Job E
  incident_job comment callback user_data user_id p = record {
    user_id = user_id;
    event_info = none;
    incident_info = some p;
    comment = comment;
    create_callback = none;
    update_callback = callback;
    user_data = user_data;
  }

  abbrev pub request_exit : Sender E → Sender E
  request_exit s = record s { exit_requested = true }

  -- `waitExit`, up to the wait for the thread.
  abbrev pub wait_exit : Sender E → Sender E
  wait_exit s = record s { job_semaphore = suc s.job_semaphore }

  abbrev pub is_idling : Sender E → Bool
  is_idling s = elim s.queue [
    | [] ↦ elim s.running_job [ none ↦ true | some _ ↦ false ]
    | _ ∷ _ ↦ false
  ]

module _ {E : Type 0} (blank : IncidentInfo) where
  unfoldable pub queue_event : E → Option ℕ → ℕ → ℤ → Sender E → Sender E
  queue_event e callback user_data user_id s =
      let (p, allocated) = allocate blank s in
      push_job (event_job e callback user_data user_id p) allocated

  unfoldable pub queue_incident : IncidentInfo → Bytes → Option ℕ → ℕ → ℤ → Sender E → Sender E
  queue_incident info comment callback user_data user_id s =
      let (p, allocated) = allocate info s in
      push_job (incident_job comment callback user_data user_id p) allocated

  unfoldable pub request : Request E → Sender E → Sender E
  unfolding queue_event queue_incident
  request (queue_event_request e f d u) s = queue_event e f d u s
  request (queue_incident_request i c f d u) s = queue_incident i c f d u s
  request exit_request s = request_exit s
  request exit_sync_request s = wait_exit (request_exit s)

  unfoldable pub requests : List (Request E) → Sender E → Sender E
  unfolding request
  requests [] s = s
  requests (r ∷ rs) s = requests rs (request r s)
