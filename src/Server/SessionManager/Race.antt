-- ===== src/Server/SessionManager/Race.antt =====
-- Threads that run at the same time: what is between the two locks of `updateTimer`.
use hatohol.Base.{
  ℕ, suc, ◌<◌, ◌≡◌, refl, sym, ap, subst, ◌∙◌, true, false, Option, none, some, arith, ◌==◌,
  if◌then◌else◌, Bytes,
}
use package.hatohol.Server.SessionManager.{
  Session, Sessions, ◌>>=◌, put, unreffed, unref, stop_timer, restart_timer, insert_session,
  update_timer, hold, get_session, release, remove, timer_cb, invalid_event_id,
}
use package.hatohol.Server.SessionManager.Local.{
  View, Gives, cancelled, restarted, Gives-bind, change-Gives,
}
use package.hatohol.Server.SessionManager.Operations.{
  restart_timer-Gives, insert_session-Gives, update_timer-Gives, hold-Gives, release-Gives,
  remove-Returns,
}
use package.hatohol.Server.SessionManager.Local.{restarted-id}
use package.hatohol.Server.SessionManager.Sound.{HasTimer, IsCounted}
use package.hatohol.Server.SessionManager.Calls.{restarted-IsCounted, CanCall, timer_call}
use package.hatohol.Server.SessionManager.Safety.{Reach, Reach-IsSound, timer_cb-Gives, fired}

-- `getSession` for the session at `p`, with its timer firing before it takes the lock of the map
-- again, and the end of the smart pointer that it returned.
abbrev pub get_session_late : ℕ → ℕ → ℕ → Sessions → Option Sessions
get_session_late p source now m =
    hold p m >>= restart_timer p source now >>= timer_cb p >>= insert_session p >>= release p

timer_at :
    (p : ℕ) (s : Session) (k : Bytes) (u : Sessions) (n : ℕ)
    → s.id ≡ k
    → HasTimer s
    → IsCounted (some s) n true
    → View p k (some s) n (some p) u
    → Gives p k (unreffed (fired s)) n none u (timer_cb p u)
timer_at p s k u n e h c =
    subst
      (λ k. View p k (some s) n (some p) u → Gives p k (unreffed (fired s)) n none u (timer_cb p u))
      e (timer_cb-Gives u p n s h c)

unheld :
    (source now : ℕ) (s : Session)
    → (source == invalid_event_id) ≡ false
    → (s.timeout == 0) ≡ false
    → IsCounted (some s) 0 true
    → let t : Session = restarted source now (record s { used_count = suc s.used_count }) in
      HasTimer t
      × (unreffed (fired t) ≡ some (record t { timer_id = invalid_event_id; used_count = 1 }))
unheld source now s h l c = ground (arith, c.0)

-- In every state that calls alone reach, for a session that an ID finds, that is to time out and that no
-- smart pointer points to: when its timer fires between the two locks of `updateTimer`, and the pointer
-- that `getSession` returned is released, the session is freed, but its ID is still mapped to it,
-- and the next `getSession` of the ID uses it.
pub get_session_late-fault :
    {m : Sessions} (id : Bytes) (p source now next_source later : ℕ) (s : Session)
    → Reach m
    → m.session_id_map id ≡ some p
    → m.session p ≡ some s
    → m.handles p ≡ 0
    → (s.timeout == 0) ≡ false
    → (source == invalid_event_id) ≡ false
    → (t : Sessions) × (get_session_late p source now m ≡ some t)
      × (t.session p ≡ none)
      × (t.session_id_map id ≡ some p)
      × (get_session id next_source later t ≡ none)
unfolding get_session
get_session_late-fault {m} id p source now next_source later s r h e z l k =
    let sound = Reach-IsSound r in
    let (b, c, mapped, own) = sound.lives p s e in
    let same : id ≡ s.id = own id h in
    let in_map : b ≡ true = ground (arith, sym h ∙ ap m.session_id_map same ∙ mapped) in
    let d : IsCounted (some s) 0 true =
      subst (λ n. IsCounted (some s) n true) z
        (subst (IsCounted (some s) (m.handles p)) in_map c) in
    let w : View p s.id (some s) 0 (some p) m = record {
      stands = e;
      held = z;
      mapped = ap m.session_id_map (sym same) ∙ h;
    } in
    let held : Session = record s { used_count = suc s.used_count } in
    let again : Session = restarted source now held in
    let late : Session = record again { timer_id = invalid_event_id; used_count = 1 } in
    let (set, left) = unheld source now s k l d in
    let (t, f, x, y) =
      Gives-bind p s.id m
        (hold p m >>= restart_timer p source now >>= timer_cb p >>= insert_session p) (release p)
        (Gives-bind p s.id m (hold p m >>= restart_timer p source now >>= timer_cb p)
          (insert_session p)
          (Gives-bind p s.id m (hold p m >>= restart_timer p source now) (timer_cb p)
            (Gives-bind p s.id m (hold p m) (restart_timer p source now) (hold-Gives p s.id m w)
              (λ u x. restart_timer-Gives p s.id source now u (λ _. ground (arith, d.0)) x))
            (λ u x.
              subst (λ o. Gives p s.id o 1 none u (timer_cb p u)) left
                (timer_at p again s.id u 1 (restarted-id source now held) set
                  (restarted-IsCounted s 0 source now k d) x)))
          (λ u x. insert_session-Gives p s.id u (restarted-id source now held) x))
        (λ u x. release-Gives p s.id u (omega arith) x) in
    (
      t,
      f,
      x.stands,
      ap t.session_id_map same ∙ x.mapped,
      ground (arith, ap t.session_id_map same ∙ x.mapped, x.stands),
    )

-- `getSession` for the session at `p`, with `remove` of its ID by another thread after the first lock of
-- the map, and the end of the smart pointer that it returned.
abbrev pub get_session_removed : Bytes → ℕ → ℕ → ℕ → Sessions → Option Sessions
get_session_removed id p source now m =
    hold p m >>= λ t. remove id t >>= λ (_, u). update_timer p source now u >>= release p

-- The session that is left, with one count for its timer.
abbrev left_over : ℕ → ℕ → Session → Session
left_over source now s = record s { last_access_time = now; timer_id = source; used_count = 1 }

module _ (source now : ℕ) (s : Session) (set : (source == invalid_event_id) ≡ false)
    (times_out : (s.timeout == 0) ≡ false) (counted : IsCounted (some s) 0 true) where
  removed :
      unreffed (cancelled (record s { used_count = suc s.used_count }))
      ≡ some (record s { timer_id = invalid_event_id; used_count = 1 })
  removed = ground (arith, counted.0)

  released :
      unreffed (restarted source now (record s { timer_id = invalid_event_id; used_count = 1 }))
      ≡ some (left_over source now s)
  released = ground arith

  last : unreffed (cancelled (stop_timer (left_over source now s))) ≡ none
  last = ground arith

-- The timer of a session whose last count is that of the timer unrefs it once too often.
timer_cb-fault :
    (p : ℕ) (s : Session) (t : Sessions)
    → unreffed (cancelled (stop_timer s)) ≡ none
    → 0 < s.used_count
    → View p s.id (some s) 0 (some p) t
    → timer_cb p t ≡ none
unfolding timer_cb unref
timer_cb-fault p s t gone l w =
    let (u, e, x, f) = change-Gives p s.id stop_timer t w in
    let (v, g, y, h) = remove-Returns p s.id u (λ k. absurd (ground (arith, k))) (ground arith) x in
    ap (λ r. r >>= λ m'. m'.session p >>= λ s. remove s.id m' >>= λ (_, m''). unref p m'') e
    ∙ ap (λ o. o >>= λ s. remove s.id u >>= λ (_, m''). unref p m'') x.stands
    ∙ ap (λ r. r >>= λ (_, m''). unref p m'') g
    ∙ ap (λ o. o >>= λ s. if s.used_count == 0 then none else some (put p (unreffed s) v))
        (y.stands ∙ gone)

-- In every state that calls alone reach, for a session that an ID finds, that is to time out and that no
-- smart pointer points to: when another thread removes the ID between the two locks of the map that
-- `getSession` takes, and the pointer that `getSession` returned is released, then the session has a
-- timer again, and when that fires, the session is freed and used once more.
pub get_session_removed-fault :
    {m : Sessions} (id : Bytes) (p source now : ℕ) (s : Session)
    → Reach m
    → m.session_id_map id ≡ some p
    → m.session p ≡ some s
    → m.handles p ≡ 0
    → (s.timeout == 0) ≡ false
    → (source == invalid_event_id) ≡ false
    → (t : Sessions) × (get_session_removed id p source now m ≡ some t)
      × CanCall (timer_call p) t
      × (timer_cb p t ≡ none)
get_session_removed-fault {m} id p source now s r h e z l k =
    let sound = Reach-IsSound r in
    let (b, c, mapped, own) = sound.lives p s e in
    let same : id ≡ s.id = own id h in
    let in_map : b ≡ true = ground (arith, sym h ∙ ap m.session_id_map same ∙ mapped) in
    let d : IsCounted (some s) 0 true =
      subst (λ n. IsCounted (some s) n true) z
        (subst (IsCounted (some s) (m.handles p)) in_map c) in
    let w : View p s.id (some s) 0 (some p) m = record {
      stands = e;
      held = z;
      mapped = ap m.session_id_map (sym same) ∙ h;
    } in
    let held : Session = record s { used_count = suc s.used_count } in
    let (m1, e1, w1, f1) = hold-Gives p s.id m w in
    let (m2, e2, w2, f2) =
      remove-Returns p s.id m1 (λ _. ground (arith, d.0)) (ground (arith, d.0)) w1 in
    let x2 : View p s.id (some (record s { timer_id = invalid_event_id; used_count = 1 })) 1 none
        m2 =
      subst (λ o. View p s.id o 1 none m2) (removed source now s k l d) w2 in
    let (m3, e3, w3, f3) =
      update_timer-Gives p s.id source now m2 (λ y. absurd (ground (arith, y))) refl x2 in
    let (m4, e4, w4, f4) = release-Gives p s.id m3 (ground (arith, l)) w3 in
    let x4 : View p s.id (some (left_over source now s)) 0 (some p) m4 =
      subst (λ o. View p s.id o 0 (some p) m4) (released source now s k l d) w4 in
    (
      m4,
      ap (λ r. r >>= λ t. remove id t >>= λ (_, u). update_timer p source now u >>= release p) e1
          ∙ ap (λ i. remove i m1 >>= λ (_, u). update_timer p source now u >>= release p) same
          ∙ ap (λ r. r >>= λ (_, u). update_timer p source now u >>= release p) e2
          ∙ ap (λ r. r >>= release p) e3
          ∙ e4,
      (left_over source now s, x4.stands, k),
      timer_cb-fault p (left_over source now s) m4 (last source now s k l d) (omega arith) x4,
    )
