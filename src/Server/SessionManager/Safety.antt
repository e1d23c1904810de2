-- ===== src/Server/SessionManager/Safety.antt =====
-- No call of the session manager uses a freed session, whatever the calls are and in any order.
use hatohol.Base.{
  ℕ, zero, suc, ◌-◌, ◌<◌, ◌≡◌, ◌≢◌, refl, sym, ap, subst, ◌∙◌, ◌⊎◌, inl, inr, true, false, Option,
  none, some, arith, ◌==◌, Option-cases, Bytes,
}
use hatohol.Base.Int.{ℤ}
use package.hatohol.Server.SessionManager.{
  Session, Sessions, ◌>>=◌, put, change, unreffed, unref, stop_timer, update_timer, new_session,
  create, get_session, remove, timer_cb, invalid_event_id,
}
use package.hatohol.Server.SessionManager.Local.{
  View, Gives, cancelled, restarted, Frame-trans, Gives-bind, Gives-session, put-Gives,
  change-Gives, unref-Gives,
}
use package.hatohol.Server.SessionManager.Operations.{update_timer-Gives, remove-Returns}
use package.hatohol.Server.SessionManager.Local.{restarted-id}
use package.hatohol.Server.SessionManager.Sound.{
  HasTimer, IsCounted, mapped_to, IsSound, Frame-IsSound,
}
use package.hatohol.Server.SessionManager.Calls.{
  Call, create_call, get_session_call, release_call, remove_call, timer_call, call, CanCall, Keeps,
  view, keeps, standing, release_call-Keeps, remove-Keeps, get_session-Keeps, fired-IsCounted,
  unreffed-id, some-injective,
}

-- The session when its timer has fired and the map has let go of it.
abbrev pub fired : Session → Session
fired s = record s { timer_id = invalid_event_id; used_count = s.used_count - 1 }

removed-fired :
    (s : Session) (n : ℕ)
    → HasTimer s
    → IsCounted (some s) n true
    → unreffed (cancelled (stop_timer s)) ≡ some (fired s)
removed-fired s n h c = ground arith

last-fired :
    (s : Session) (n : ℕ)
    → HasTimer s
    → IsCounted (some s) n true
    → n ≡ 0
    → unreffed (fired s) ≡ none
last-fired s n h c z = ground (arith, c.0, h, z)

new-IsCounted :
    (user : ℤ) (id : Bytes) (now timeout default source : ℕ)
    → (source == invalid_event_id) ≡ false
    → IsCounted (some (restarted source now (new_session user id now timeout default))) 0 true
new-IsCounted user id now timeout default source h = ground arith

pub timer_cb-Gives :
    (m : Sessions) (p n : ℕ) (s : Session)
    → HasTimer s
    → IsCounted (some s) n true
    → View p s.id (some s) n (some p) m
    → Gives p s.id (unreffed (fired s)) n none m (timer_cb p m)
unfolding timer_cb
timer_cb-Gives m p n s h c w =
    Gives-bind p s.id m (change p stop_timer m)
      (λ m'. m'.session p >>= λ s. remove s.id m' >>= λ (_, m''). unref p m'')
      (change-Gives p s.id stop_timer m w)
      (λ t x.
        Gives-session p s.id t (λ s. remove s.id t >>= λ (_, m''). unref p m'') x
          (let (u, e, y, f) =
              remove-Returns p s.id t (λ k. absurd (ground (arith, k))) (ground (arith, c.0, h))
                x in
            let z : View p s.id (some (fired s)) n none u =
              subst (λ o. View p s.id o n none u) (removed-fired s n h c) y in
            let (v, e', y', f') = unref-Gives p s.id u (ground (arith, c.0, h)) z in
            (v, ap (λ r. r >>= λ (_, m''). unref p m'') e ∙ e', y', Frame-trans p s.id f f')))

module _ (m : Sessions) (sound : IsSound m) where
  -- The timer of a session in the map takes it out.
  pub timer_cb-unmapped :
      (p : ℕ) (s : Session)
      → m.session p ≡ some s
      → HasTimer s
      → (t : Sessions) × (timer_cb p m ≡ some t)
        × (t.session_id_map s.id ≡ none)
        × (m.handles p ≡ 0 → t.session p ≡ none)
  timer_cb-unmapped p s e h =
      let (b, c, mapped, own) = sound.lives p s e in
      let yes_b : b ≡ true = c.2 h in
      let d : IsCounted (some s) (m.handles p) true =
        subst (IsCounted (some s) (m.handles p)) yes_b c in
      let mapped' : m.session_id_map s.id ≡ some p = mapped ∙ ap (λ b. mapped_to b p) yes_b in
      let (t, r, w, f) =
        timer_cb-Gives m p (m.handles p) s h d (view m sound p s true e mapped' own) in
      (t, r, w.mapped, λ z. w.stands ∙ last-fired s (m.handles p) h d z)

  timer_cb-Keeps :
      (p : ℕ) (s : Session) → m.session p ≡ some s → HasTimer s → Keeps m sound (timer_cb p m)
  timer_cb-Keeps p s e h =
      let (b, c, mapped, own) = sound.lives p s e in
      let yes_b : b ≡ true = c.2 h in
      let d : IsCounted (some s) (m.handles p) true =
        subst (IsCounted (some s) (m.handles p)) yes_b c in
      let mapped' : m.session_id_map s.id ≡ some p = mapped ∙ ap (λ b. mapped_to b p) yes_b in
      let (t, r, w, f) =
        timer_cb-Gives m p (m.handles p) s h d (view m sound p s true e mapped' own) in
      (
        t,
        r,
        keeps m sound p s true e mapped' own (unreffed (fired s)) (m.handles p) false t w f
            (fired-IsCounted s (m.handles p) h d) (unreffed-id (fired s)),
      )

  create-Keeps :
      (user : ℤ) (id : Bytes) (timeout default p source now : ℕ)
      → m.session p ≡ none
      → ((q : ℕ) (s : Session) → m.session q ≡ some s → s.id ≢ id)
      → (source == invalid_event_id) ≡ false
      → Keeps m sound (create user id timeout default p source now m)
  unfolding create
  create-Keeps user id timeout default p source now free fresh h =
      let s : Session = new_session user id now timeout default in
      let unmapped : (v : Option ℕ) → m.session_id_map id ≡ v → v ≡ none = λ v e.
        elim (Option-cases v) [
          | inl x ↦ x
          | inr (q, x) ↦
              let (u, y) = standing m sound q (λ y. (sound.freed q y).1 id (e ∙ x)) in
              let (b, c, mapped, own) = sound.lives q u y in
              absurd (fresh q u y (sym (own id (e ∙ x))))
        ] in
      let before : View p id none 0 none m = record {
        stands = free;
        held = (sound.freed p free).0;
        mapped = unmapped (m.session_id_map id) refl;
      } in
      let (t, r, w, f) =
        Gives-bind p id m (some (put p (some s) m)) (update_timer p source now)
          (put-Gives p id (some s) m before)
          (λ t x. update_timer-Gives p id source now t (λ k. absurd (ground (arith, k))) refl x) in
      (
        t,
        r,
        Frame-IsSound p id true sound (λ q u e i. absurd (fresh q u e i))
            (λ other e. absurd ((sound.freed p free).1 other e)) w f
            (new-IsCounted user id now timeout default source h)
            (λ u x.
              ap (λ (v : Session). v.id) (some-injective u (restarted source now s) (sym x))
              ∙ restarted-id source now s),
      )

  -- Any call that can be made returns.
  call-Keeps : (c : Call) → CanCall c m → Keeps m sound (call c m)
  unfolding call
  call-Keeps (create_call user id timeout default p source now) (free, fresh, h) =
      create-Keeps user id timeout default p source now free fresh h
  call-Keeps (get_session_call id source now) h = get_session-Keeps m sound id source now h
  call-Keeps (release_call p) h = release_call-Keeps m sound p h
  call-Keeps (remove_call id) h = remove-Keeps m sound id
  call-Keeps (timer_call p) (s, e, h) = timer_cb-Keeps p s e h

abbrev pub empty : Sessions
empty = record { session = λ p. none; session_id_map = λ id. none; handles = λ p. 0 }

sessions-injective : (m t : Sessions) → some m ≡ some t → m ≡ t
sessions-injective m t e = ap (λ o. elim o [ none ↦ m | some u ↦ u ]) e

-- What a new session manager reaches by calls that can be made.
pub data Reach : Sessions → Type 0 where
  starts : Reach empty
  called : {m t : Sessions} (c : Call) → Reach m → CanCall c m → call c m ≡ some t → Reach t

pub Reach-IsSound : {m : Sessions} → Reach m → IsSound m
Reach-IsSound starts = record {
  freed = λ p e. (refl, λ id h. ground (arith, h));
  lives = λ p s e. absurd (ground (arith, e));
  distinct = λ p q s t e f i. absurd (ground (arith, e));
}
Reach-IsSound (called {m} {t} c r can e) =
    let (u, f, sound) = call-Keeps m (Reach-IsSound r) c can in
    subst IsSound (sessions-injective u t (sym f ∙ e)) sound

-- After any history of calls, each of which runs alone, every call that can be made returns: no freed
-- session is used and no assertion fails. The count of users of every session is that of its place in
-- the map, its timer and the smart pointers to it, what points to a session points to one that lives,
-- only a session in the map has a timer, and it has one unless it never times out. A call can be
-- made when the address of a new session is free and its ID is new, what is released is held, the
-- timer that fires is set, and a new timer's ID is not the invalid one. The counts of users are
-- numbers without a bound.
pub Reach-call :
    {m : Sessions} (c : Call)
    → Reach m
    → CanCall c m
    → IsSound m × (t : Sessions) × (call c m ≡ some t)
Reach-call c r can =
    let sound = Reach-IsSound r in let (t, e, kept) = call-Keeps _ sound c can in (sound, t, e)

unheld_freed : {P : Type 0} (n : ℕ) → (n ≡ 0 → P) → (0 < n) ⊎ P
unheld_freed zero h = inr (h refl)
unheld_freed (suc n) h = inl (omega arith)

-- After any history of calls that run alone, a session that an ID finds and that is to time out has its
-- timer set; when the timer fires, the ID finds nothing any more, and the session is freed if no smart
-- pointer points to it.
pub Reach-expires :
    {m : Sessions} (id : Bytes) (p source now : ℕ) (s : Session)
    → Reach m
    → m.session_id_map id ≡ some p
    → m.session p ≡ some s
    → (s.timeout == 0) ≡ false
    → CanCall (timer_call p) m
      × (t : Sessions) × (call (timer_call p) m ≡ some t)
      × (get_session id source now t ≡ some (none, t))
      × ((0 < m.handles p) ⊎ (t.session p ≡ none))
unfolding call get_session
Reach-expires {m} id p source now s r h e l =
    let sound = Reach-IsSound r in
    let (b, c, mapped, own) = sound.lives p s e in
    let same : id ≡ s.id = own id h in
    let in_map : b ≡ true = ground (arith, sym h ∙ ap m.session_id_map same ∙ mapped) in
    let set : HasTimer s = c.3 in_map l in
    let (t, f, gone, freed) = timer_cb-unmapped m sound p s e set in
    (
      (s, e, set),
      t,
      f,
      ground (arith, ap t.session_id_map same ∙ gone),
      unheld_freed (m.handles p) freed,
    )
