-- ===== src/Server/SelfMonitor.antt =====
-- server/src/SelfMonitor.cc: monitors of the server itself, each a trigger with a status, and the monitors
-- that listen to them.
use hatohol.Base.{
  ℕ, zero, suc, ◌+◌, ◌<◌, ◌≡◌, Bool, true, false, not, ◌&&◌, Option, none, some, List, [], ◌∷◌,
  ◌++◌, arith, ◌==◌, if◌then◌else◌,
}
pub mod Keeps
pub mod Status
pub mod Circular

-- A status is the number of its enumerator.
abbrev pub trigger_status_ok : ℕ
trigger_status_ok = 0

abbrev pub trigger_status_problem : ℕ
trigger_status_problem = 1

abbrev pub trigger_status_unknown : ℕ
trigger_status_unknown = 2

abbrev pub num_trigger_status : ℕ
num_trigger_status = 3

-- The fields of `Impl` that change. A listener is the number of a monitor, and an event generator is
-- its number, where 0 is the one that does nothing.
pub record SelfMonitor : Type 0 where
  pub status : ℕ
  pub last_known_status : ℕ
  pub actual_status : ℕ
  pub listeners : List ℕ
  pub event_generators : ℕ → ℕ → ℕ
  pub in_updating : Bool
  pub workable : Bool
  pub in_set_workable_call : Bool

abbrev pub init : SelfMonitor
init = record {
  status = trigger_status_unknown;
  last_known_status = trigger_status_unknown;
  actual_status = trigger_status_unknown;
  listeners = [];
  event_generators = λ prev_status new_status. 0;
  in_updating = false;
  workable = true;
  in_set_workable_call = false;
}

abbrev pub unworkable_visible_status : ℕ
unworkable_visible_status = trigger_status_unknown

-- `setupRange`: the first status and the number of them; `none` is `TRIGGER_STATUS_ALL`.
abbrev setup_range : Option ℕ → ℕ × ℕ
setup_range none = (0, num_trigger_status)
setup_range (some st) = (st, 1)

-- The two loops of `setEventGenerator`, each by the number of rounds that are left.
new_status_loop : ℕ → ℕ → ℕ → ℕ → (ℕ → ℕ → ℕ) → ℕ → ℕ → ℕ
new_status_loop generator pst zero nst table = table
new_status_loop generator pst (suc left) nst table =
    new_status_loop generator pst left (nst + 1)
      (λ p n. if p == pst && n == nst then generator else table p n)

prev_status_loop : ℕ → ℕ → ℕ → ℕ × ℕ → (ℕ → ℕ → ℕ) → ℕ → ℕ → ℕ
prev_status_loop generator zero pst range table = table
prev_status_loop generator (suc left) pst range table =
    prev_status_loop generator left (pst + 1) range
      (new_status_loop generator pst range.1 range.0 table)

unfoldable pub set_event_generator : Option ℕ → Option ℕ → ℕ → SelfMonitor → SelfMonitor
unfolding new_status_loop prev_status_loop
set_event_generator prev_status new_status generator m =
    let prev = setup_range prev_status in
    record m {
      event_generators =
          prev_status_loop generator prev.1 prev.0 (setup_range new_status) m.event_generators;
    }

unfoldable pub add_notification_listener : ℕ → SelfMonitor → SelfMonitor
add_notification_listener monitor m = record m { listeners = m.listeners ++ monitor ∷ [] }

-- What the rest of the server sees: a trigger that is stored, and a generator that is called.
pub data Effect : Type 0 where
  update_trigger : ℕ → ℕ → Effect
  generate_event : ℕ → ℕ → ℕ → ℕ → Effect

-- All monitors, and the effects so far, the latest first.
pub record Monitors : Type 0 where
  pub monitor : ℕ → SelfMonitor
  pub effects : List Effect

-- A call that a notification handler makes, on a monitor.
pub data Call : Type 0 where
  update_call : ℕ → Call
  set_workable_call : Bool → Call

-- `thrown` is the failure of the assertion.
pub data Result : Type 0 where
  done : Monitors → Result
  thrown : Result
  out_of_fuel : Result

abbrev pub put : ℕ → SelfMonitor → Monitors → Monitors
put id m s = record s { monitor = λ i. if i == id then m else s.monitor i }

abbrev pub and_then : Result → (Monitors → Result) → Result
and_then (done s) f = f s
and_then thrown f = thrown
and_then out_of_fuel f = out_of_fuel

-- The status that `update` makes visible, and the monitor while its listeners are notified.
abbrev pub visible : SelfMonitor → ℕ → ℕ
visible m status = if not m.workable then unworkable_visible_status else status

abbrev pub begun : SelfMonitor → ℕ → SelfMonitor
begun m status = record m {
  in_updating = true;
  actual_status = if not m.in_set_workable_call then status else m.actual_status;
  status = visible m status;
}

-- What `update` leaves: the listeners that still exist, and the last known status.
module _ (alive : ℕ → Bool) where
  pub keep_alive : List ℕ → List ℕ
  keep_alive [] = []
  keep_alive (l ∷ ls) = if alive l then l ∷ keep_alive ls else keep_alive ls

  abbrev pub ended : SelfMonitor → ℕ → SelfMonitor
  ended m status = record m {
    in_updating = false;
    listeners = keep_alive m.listeners;
    last_known_status =
        if not (status == trigger_status_unknown) then status else m.last_known_status;
  }

-- `alive` are the listeners that still exist, and `handler` are the calls that the notification
-- handler of a listener makes: it is given the listener, the monitor that it listens to, and the
-- statuses before and after. `stateless` are the monitors with the identifier `STATELESS_MONITOR`.
-- `onUpdated` does nothing by default, and is left out. `upd` stands for `update`.
module _ (alive stateless : ℕ → Bool) (handler : ℕ → ℕ → ℕ → ℕ → List (ℕ × Call)) where
  unfoldable pub set_workable_with : (Monitors → ℕ → ℕ → Result) → Monitors → ℕ → Bool → Result
  set_workable_with upd s id workable =
      let m = record (s.monitor id) { in_set_workable_call = true; workable = workable } in
      and_then
        (upd (put id m s) id (if workable then m.actual_status else unworkable_visible_status))
        (λ t. done (put id (record (t.monitor id) { in_set_workable_call = false }) t))

  unfoldable pub calls_loop : (Monitors → ℕ → ℕ → Result) → List (ℕ × Call) → Monitors → Result
  unfolding set_workable_with
  calls_loop upd [] s = done s
  calls_loop upd (c ∷ cs) s = elim c.1 [
    | update_call status ↦ and_then (upd s c.0 status) (λ t. calls_loop upd cs t)
    | set_workable_call workable ↦
        and_then (set_workable_with upd s c.0 workable) (λ t. calls_loop upd cs t)
  ]

  unfoldable pub listeners_loop :
      (Monitors → ℕ → ℕ → Result) → ℕ → ℕ → ℕ → List ℕ → Monitors → Result
  unfolding calls_loop
  listeners_loop upd id prev_status new_status [] s = done s
  listeners_loop upd id prev_status new_status (l ∷ ls) s =
      let erased = listeners_loop upd id prev_status new_status ls s in
      if alive l
      then and_then (calls_loop upd (handler l id prev_status new_status) s)
          (λ t. listeners_loop upd id prev_status new_status ls t)
      else erased

  -- What `update` stores and generates. The trigger of a monitor that is stateless is not stored.
  abbrev pub effects_of : SelfMonitor → ℕ → ℕ → List Effect
  effects_of m id status =
      let new_status = visible m status in
      let event =
        (generate_event (m.event_generators m.status new_status) id m.status new_status) in
      if stateless id then event ∷ [] else event ∷ update_trigger id new_status ∷ []

  unfoldable pub update : ℕ → Monitors → ℕ → ℕ → Result
  unfolding listeners_loop keep_alive
  update zero s id status = out_of_fuel
  update (suc fuel) s id status =
      let m = s.monitor id in
      let effects = effects_of m id status ++ s.effects in
      let begin = record (put id (begun m status) s) { effects = effects } in
      if m.in_updating
      then thrown
      else and_then
          (listeners_loop (λ t i st. update fuel t i st) id m.status (visible m status) m.listeners
            begin)
          (λ t. done (put id (ended alive (t.monitor id) (visible m status)) t))

  unfoldable pub set_workable : ℕ → Monitors → ℕ → Bool → Result
  unfolding set_workable_with update
  set_workable fuel s id workable = set_workable_with (λ t i st. update fuel t i st) s id workable

-- The statuses that an argument of `setEventGenerator` stands for.
abbrev pub covers : Option ℕ → ℕ → Bool
covers none st = true
covers (some st) other = other == st

-- `setEventGenerator` sets the generator for exactly the pairs of statuses that its arguments stand
-- for, where `TRIGGER_STATUS_ALL` is all of them, and keeps the others.
pub set_event_generator_lem :
    (prev_status new_status : Option ℕ) (generator : ℕ) (m : SelfMonitor) (p n : ℕ)
    → p < num_trigger_status
    → n < num_trigger_status
    → (set_event_generator prev_status new_status generator m).event_generators p n
      ≡ (if covers prev_status p && covers new_status n then generator else m.event_generators p n)
unfolding set_event_generator prev_status_loop new_status_loop
set_event_generator_lem none none generator m p n h k = ground arith
set_event_generator_lem none (some b) generator m p n h k = ground arith
set_event_generator_lem (some a) none generator m p n h k = ground arith
set_event_generator_lem (some a) (some b) generator m p n h k = ground arith
