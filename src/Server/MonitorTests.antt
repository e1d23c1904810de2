-- ===== src/Server/MonitorTests.antt =====
-- The theorems on the self monitor and on the cache of hosts at concrete inputs.
use hatohol.Base.{
  ℕ, zero, suc, ◌≡◌, ◌≢◌, refl, Bool, true, false, Option, none, some, List, [], ◌∷◌, arith,
  if◌then◌else◌, codes, eq_bytes,
}
use hatohol.Server.SelfMonitor.{
  Monitors, Call, Result, done, thrown, out_of_fuel, update_call, set_workable_call, calls_loop,
  update, set_workable, trigger_status_unknown,
}
use hatohol.Server.SelfMonitor.Keeps.{ShowsActual}
use hatohol.Server.SelfMonitor.Status.{new_monitors, calls_loop-ShowsActual, set_workable-update}
use hatohol.Server.SelfMonitor.Circular.{update-returns, update_circular}
use hatohol.Server.HostInfoCache.{
  ServerHostDef, HostInfoCache, get_name, update_all, name_of, last_name, register_ad_hoc,
  ad_hoc_element, get_name-update_all, update-register_ad_hoc, invalid_host_id, Element,
}
use hatohol.Server.HostInfoCache as hosts

-- Monitor 1 listens to monitor 0 and takes over its status; in `circle` it also answers.
abbrev listeners : ℕ → List ℕ
listeners zero = 1 ∷ []
listeners (suc n) = []

abbrev no_generators : ℕ → ℕ → ℕ → ℕ
no_generators i p n = 0

abbrev all : ℕ → Bool
all i = true

abbrev no_one : ℕ → Bool
no_one i = false

abbrev follow : ℕ → ℕ → ℕ → ℕ → List (ℕ × Call)
follow l id p n = (1, update_call n) ∷ []

abbrev circle : ℕ → ℕ → ℕ → ℕ → List (ℕ × Call)
circle l id p n = (0, update_call n) ∷ []

abbrev history : List (ℕ × Call)
history = (0, update_call 0) ∷ (1, set_workable_call false) ∷ (0, update_call 1) ∷ []

abbrev start : Monitors
start = new_monitors listeners no_generators

abbrev reached : Result → Monitors
reached (done s) = s
reached thrown = start
reached out_of_fuel = start

abbrev after_history : Monitors
after_history = reached (calls_loop all no_one follow (update all no_one follow 4) history start)

history_done :
    calls_loop all no_one follow (update all no_one follow 4) history start ≡ done after_history
unfolding calls_loop update
history_done = refl

calls_loop-ShowsActual_example :
    ((after_history.monitor 1).in_updating ≡ false) × ShowsActual (after_history.monitor 1)
calls_loop-ShowsActual_example =
    calls_loop-ShowsActual all no_one follow listeners no_generators 4 history after_history
      history_done 1

abbrev off : Monitors
off = reached (set_workable all no_one follow 4 start 0 false)

abbrev updated : Monitors
updated = reached (update all no_one follow 4 off 0 1)

abbrev on : Monitors
on = reached (set_workable all no_one follow 4 updated 0 true)

off_done : set_workable all no_one follow 4 start 0 false ≡ done off
unfolding set_workable
off_done = refl

updated_done : update all no_one follow 4 off 0 1 ≡ done updated
unfolding update set_workable
updated_done = refl

on_done : set_workable all no_one follow 4 updated 0 true ≡ done on
unfolding update set_workable
on_done = refl

set_workable-update_example :
    ((off.monitor 0).status ≡ trigger_status_unknown)
    × ((updated.monitor 0).status ≡ trigger_status_unknown)
    × ((on.monitor 0).status ≡ 1)
set_workable-update_example =
    set_workable-update all no_one follow 4 4 4 start off updated on 0 1 off_done updated_done
      on_done

update-returns_example : update all no_one circle 3 start 0 1 ≢ out_of_fuel
update-returns_example =
    update-returns all no_one circle 2 (λ l id p q. (omega arith, tt)) 3 start 0 1 (omega arith)
      (omega arith)

update_circular_example : update all no_one circle 2 start 0 1 ≡ thrown
update_circular_example =
    update_circular all no_one circle 0 start 0 1 1 1 [] [] refl refl refl refl

abbrev renamed : List ServerHostDef
renamed =
    record { host_id = 5; host_id_in_server = codes "a"; name = codes "old" }
    ∷ record { host_id = 6; host_id_in_server = codes "a"; name = codes "new" }
    ∷ []

abbrev cached : Option HostInfoCache → HostInfoCache
cached none = hosts.init
cached (some c) = c

abbrev cache : HostInfoCache
cache = cached (update_all (λ i. none) renamed hosts.init)

cache-some : update_all (λ i. none) renamed hosts.init ≡ some cache
unfolding update_all
cache-some = refl

get_name-update_all_example :
    name_of (get_name (codes "a") cache)
    ≡ last_name (codes "a") renamed (name_of (get_name (codes "a") hosts.init))
get_name-update_all_example =
    get_name-update_all (λ i. none) renamed hosts.init cache (codes "a") cache-some

abbrev registered : HostInfoCache
registered other = if eq_bytes other (codes "a") then some (ad_hoc_element (codes "h")) else none

register_some :
    register_ad_hoc (codes "a") (codes "h") hosts.init
    ≡ some (registered, ad_hoc_element (codes "h"))
unfolding register_ad_hoc
register_some = refl

abbrev defined : ServerHostDef
defined = record { host_id = 5; host_id_in_server = codes "a"; name = codes "h" }

update-some : hosts.update defined 5 false registered ≡ some registered
unfolding hosts.update
update-some = refl

get_name-init : get_name (codes "a") hosts.init ≡ none
unfolding get_name
get_name-init = refl

update-register_ad_hoc_example : get_name (codes "a") registered ≡ some (ad_hoc_element (codes "h"))
update-register_ad_hoc_example =
    update-register_ad_hoc (codes "a") (codes "h") 5 hosts.init registered registered
      (ad_hoc_element (codes "h")) get_name-init register_some update-some
