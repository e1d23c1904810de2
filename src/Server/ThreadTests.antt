-- ===== src/Server/ThreadTests.antt =====
-- The theorems on the sender of incidents and on sessions at concrete inputs.
use hatohol.Base.{
  ℕ, zero, suc, ◌++◌, ◌≡◌, ◌≤◌, ◌<◌, ◌⊎◌, refl, Bool, true, Option, none, some, List, [], ◌∷◌,
  arith, codes,
}
use hatohol.Base.Int.{pos}
use hatohol.Server.IncidentSender.{
  IncidentInfo, Job, Entry, Sender, Round, Iteration, went_on, ended, blocked, out_of_fuel, init,
  request, queue_event_request, queue_incident_request,
}
use hatohol.Server.IncidentSender.Sending.{main_iteration, try_send, history_of}
use hatohol.Server.IncidentSender.Keeps.{own}
use hatohol.Server.IncidentSender.Retries.{Tried}
use hatohol.Server.IncidentSender.Ending.{ending, sends, try_send-Tried}
use hatohol.Server.IncidentSender.Order.{Reach, IsOrderly, Reach-IsOrderly}
use hatohol.Server.IncidentSender.Progress.{StartsJob, main_iteration-StartsJob}
use hatohol.Server.SessionManager.{Session, Sessions, get_session, timer_cb}
use hatohol.Server.SessionManager.Sound.{IsSound}
use hatohol.Server.SessionManager.Calls.{call, CanCall, create_call, timer_call}
use hatohol.Server.SessionManager.Safety as safety
use hatohol.Server.SessionManager.Safety.{empty, Reach-call, Reach-expires}
use hatohol.Server.SessionManager.Race.{
  get_session_late, get_session_late-fault, get_session_removed, get_session_removed-fault,
}

abbrev blank : IncidentInfo
blank = record {
  tracker_id = pos 0;
  server_id = pos 0;
  event_id = [];
  trigger_id = [];
  identifier = [];
  location = [];
  status = [];
  priority = [];
  assignee = [];
  done_ratio = pos 0;
  created_at = (pos 0, pos 0);
  updated_at = (pos 0, pos 0);
  status_code = 0;
  unified_event_id = 0;
  comment_count = pos 0;
}

-- The first attempt fails, and while the thread sleeps another job is queued.
abbrev rounds : ℕ → Round ℕ
rounds zero = record {
  during_send = [];
  answer = 48;
  filled = blank;
  during_sleep = queue_incident_request blank (codes "closed") none 0 (pos 2) ∷ [];
}
rounds (suc i) = record { during_send = []; answer = 0; filled = blank; during_sleep = [] }

abbrev queued : Sender ℕ
queued = init blank true

abbrev one_queued : Sender ℕ
one_queued = request blank (queue_event_request 5 (some 9) 0 (pos 2)) queued

abbrev one_reached : Reach blank true one_queued
one_reached = Reach.asked (queue_event_request 5 (some 9) 0 (pos 2)) (Reach.starts true)

abbrev state_of : Iteration ℕ → Sender ℕ
state_of (went_on s) = s
state_of (ended s) = s
state_of blocked = queued
state_of out_of_fuel = queued

abbrev turn : Iteration ℕ
turn = main_iteration blank rounds (pos 1, pos 0) [] one_queued

turn_goes_on : turn ≡ went_on (state_of turn)
unfolding main_iteration request
turn_goes_on = refl

Reach-IsOrderly_example :
    IsOrderly blank (state_of turn)
    × ((◌≡◌ {A = Bool} true true) ⊎ ((state_of turn).exit_requested ≡ true))
Reach-IsOrderly_example =
    Reach-IsOrderly blank (Reach.turned rounds (pos 1, pos 0) [] one_reached turn_goes_on)

main_iteration-StartsJob_example :
    StartsJob blank one_queued.queue one_queued
      (main_iteration blank rounds (pos 1, pos 0) [] one_queued)
unfolding request
main_iteration-StartsJob_example =
    main_iteration-StartsJob blank rounds (pos 1, pos 0) [] one_reached refl

abbrev job : Job ℕ
job = record {
  user_id = pos 2;
  event_info = some 5;
  incident_info = some 0;
  comment = [];
  create_callback = some 9;
  update_callback = none;
  user_data = 0;
}

try_send-Tried_example :
    (r : ℕ) × (t : Sender ℕ) × (es : List (Entry ℕ)) × (try_send blank rounds
        (pos 1, pos 0)
        job
        queued
      ≡ some (r, t))
    × Tried job queued.retry_limit t.exit_requested 0 r es
    × (own t.trace
        ≡ own queued.trace
          ++ (es
              ++ ending job queued.should_record_incident_history
                  (history_of job (pos 1, pos 0) (t.incident 0))
                  r))
    × (1 ≤ sends es)
    × (sends es ≤ suc queued.retry_limit)
try_send-Tried_example = try_send-Tried job (pos 1, pos 0) 0 refl blank rounds queued

abbrev sessions_of : Option Sessions → Sessions
sessions_of none = empty
sessions_of (some m) = m

abbrev created : Sessions
created = sessions_of (call (create_call (pos 2) (codes "id") 600 600 7 11 1) empty)

abbrev created_session : Session
created_session = record {
  user_id = pos 2;
  id = codes "id";
  login_time = 1;
  last_access_time = 1;
  timeout = 600;
  timer_id = 11;
  used_count = 2;
}

created_reached : safety.Reach created
unfolding call
created_reached =
    safety.Reach.called (create_call (pos 2) (codes "id") 600 600 7 11 1) safety.Reach.starts
      (refl, λ q s e. absurd (ground (arith, e)), refl) refl

Reach-call_example : IsSound created × (t : Sessions) × (call (timer_call 7) created ≡ some t)
unfolding call
Reach-call_example = Reach-call (timer_call 7) created_reached (created_session, refl, refl)

Reach-expires_example :
    CanCall (timer_call 7) created
    × (t : Sessions) × (call (timer_call 7) created ≡ some t)
    × (get_session (codes "id") 12 2 t ≡ some (none, t))
    × ((0 < created.handles 7) ⊎ (t.session 7 ≡ none))
unfolding call
Reach-expires_example =
    Reach-expires (codes "id") 7 12 2 created_session created_reached refl refl refl

get_session_late-fault_example :
    (t : Sessions) × (get_session_late 7 12 2 created ≡ some t)
    × (t.session 7 ≡ none)
    × (t.session_id_map (codes "id") ≡ some 7)
    × (get_session (codes "id") 13 3 t ≡ none)
unfolding call
get_session_late-fault_example =
    get_session_late-fault (codes "id") 7 12 2 13 3 created_session created_reached refl refl refl
      refl refl

get_session_removed-fault_example :
    (t : Sessions) × (get_session_removed (codes "id") 7 12 2 created ≡ some t)
    × CanCall (timer_call 7) t
    × (timer_cb 7 t ≡ none)
unfolding call
get_session_removed-fault_example =
    get_session_removed-fault (codes "id") 7 12 2 created_session created_reached refl refl refl
      refl refl
