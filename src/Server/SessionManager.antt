-- ===== src/Server/SessionManager.antt =====
-- server/src/SessionManager.cc and server/common/UsedCountable.cc: sessions in the heap with their
-- counts of users, the map from IDs to addresses, and the smart pointers that threads hold. A step is
-- what runs under one lock. `none` is a fault: a freed session is used, or an assertion fails. The IDs
-- of sessions and of timers, the clock and the addresses that `new` returns are arguments.
pub mod Local
pub mod Operations
pub mod Sound
pub mod Calls
pub mod Safety
pub mod Race
use hatohol.Base.{
  ℕ, suc, ◌-◌, Bool, true, false, Option, none, some, Bytes, ltb, ◌==◌, if◌then◌else◌, eq_bytes,
}
use hatohol.Base.Int.{ℤ}

abbrev pub invalid_event_id : ℕ
invalid_event_id = 0xffffffff

abbrev pub initial_timeout : ℕ
initial_timeout = 600

-- -1 as a `size_t`.
abbrev pub default_timeout_mark : ℕ
default_timeout_mark = 0xffffffffffffffff

pub record Session : Type 0 where
  pub user_id : ℤ
  pub id : Bytes
  pub login_time : ℕ
  pub last_access_time : ℕ
  pub timeout : ℕ
  pub timer_id : ℕ
  pub used_count : ℕ

-- `handles p` is how many smart pointers to `p` there are.
pub record Sessions : Type 0 where
  pub session : ℕ → Option Session
  pub session_id_map : Bytes → Option ℕ
  pub handles : ℕ → ℕ

infixl 5 ◌>>=◌
abbrev pub ◌>>=◌ {ℓ κ} : {A : Type ℓ} {B : Type κ} → Option A → (A → Option B) → Option B
none >>= f = none
some a >>= f = f a

abbrev pub put : ℕ → Option Session → Sessions → Sessions
put p o m = record m { session = λ q. if p == q then o else m.session q }

abbrev pub set_id : Bytes → Option ℕ → Sessions → Sessions
set_id id v m = record m {
  session_id_map = λ other. if eq_bytes id other then v else m.session_id_map other;
}

abbrev pub set_handles : ℕ → ℕ → Sessions → Sessions
set_handles p n m = record m { handles = λ q. if p == q then n else m.handles q }

abbrev pub change : ℕ → (Session → Session) → Sessions → Option Sessions
change p f m = m.session p >>= λ s. some (put p (some (f s)) m)

-- UsedCountable: a session that lives has a positive count.
abbrev pub ref : ℕ → Sessions → Option Sessions
ref p = change p (λ s. record s { used_count = suc s.used_count })

abbrev pub unreffed : Session → Option Session
unreffed s =
    if s.used_count - 1 == 0 then none else some (record s { used_count = s.used_count - 1 })

unfoldable pub unref : ℕ → Sessions → Option Sessions
unref p m = m.session p >>= λ s. if s.used_count == 0 then none else some (put p (unreffed s) m)

-- `HATOHOL_ASSERT(usedCount >= 2, …)`.
abbrev pub assert_used : ℕ → Sessions → Option Sessions
assert_used p m = m.session p >>= λ s. if ltb s.used_count 2 then none else some m

abbrev pub stop_timer : Session → Session
stop_timer s = record s { timer_id = invalid_event_id }

unfoldable pub cancel_timer : ℕ → Sessions → Option Sessions
unfolding unref
cancel_timer p m = m.session p >>= λ s.
    if s.timer_id == invalid_event_id
    then some m
    else change p stop_timer m >>= assert_used p >>= unref p

abbrev pub started : ℕ → ℕ → Sessions → Option Sessions
started p source m = m.session p >>= λ s.
    if s.timeout == 0 then some m else change p (λ s. record s { timer_id = source }) m >>= ref p

-- `updateTimer`, under the lock of the session.
unfoldable pub restart_timer : ℕ → ℕ → ℕ → Sessions → Option Sessions
unfolding cancel_timer
restart_timer p source now m =
    cancel_timer p m >>= started p source >>= change p (λ s. record s { last_access_time = now })

-- `updateTimer`, under the lock of the map.
unfoldable pub insert_session : ℕ → Sessions → Option Sessions
insert_session p m = m.session p >>= λ s. some (set_id s.id (some p) m)

unfoldable pub update_timer : ℕ → ℕ → ℕ → Sessions → Option Sessions
unfolding restart_timer insert_session
update_timer p source now m = restart_timer p source now m >>= insert_session p

abbrev pub new_session : ℤ → Bytes → ℕ → ℕ → ℕ → Session
new_session user_id id now timeout default_timeout = record {
  user_id = user_id;
  id = id;
  login_time = now;
  last_access_time = now;
  timeout = if timeout == default_timeout_mark then default_timeout else timeout;
  timer_id = invalid_event_id;
  used_count = 1;
}

unfoldable pub create : ℤ → Bytes → ℕ → ℕ → ℕ → ℕ → ℕ → Sessions → Option Sessions
unfolding update_timer
create user_id id timeout default_timeout p source now m =
    update_timer p source now (put p (some (new_session user_id id now timeout default_timeout)) m)

-- `getSession`, under the lock of the map: the smart pointer is made there.
abbrev pub hold : ℕ → Sessions → Option Sessions
hold p m = ref p (set_handles p (suc (m.handles p)) m)

unfoldable pub get_session : Bytes → ℕ → ℕ → Sessions → Option (Option ℕ × Sessions)
unfolding update_timer
get_session id source now m = elim (m.session_id_map id) [
  | none ↦ some (none, m)
  | some p ↦ hold p m >>= update_timer p source now >>= λ m'. some (some p, m')
]

-- The destructor of a smart pointer to `p`.
unfoldable pub release : ℕ → Sessions → Option Sessions
unfolding unref
release p m = unref p (set_handles p (m.handles p - 1) m)

unfoldable pub remove : Bytes → Sessions → Option (Bool × Sessions)
unfolding cancel_timer unref
remove id m = elim (m.session_id_map id) [
  | none ↦ some (false, m)
  | some p ↦ cancel_timer p (set_id id none m) >>= unref p >>= λ m'. some (true, m')
]

unfoldable pub timer_cb : ℕ → Sessions → Option Sessions
unfolding remove unref
timer_cb p m =
    change p stop_timer m >>= λ m'. m'.session p >>= λ s. remove s.id m' >>= λ (_, m''). unref p m''
