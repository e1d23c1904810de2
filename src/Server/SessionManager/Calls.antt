-- ===== src/Server/SessionManager/Calls.antt =====
-- Calls of the session manager, each of which runs alone.
use hatohol.Base.{
  ℕ, suc, ◌-◌, ◌≤◌, ◌<◌, ◌≡◌, ◌≢◌, refl, sym, ap, subst, ◌∙◌, inl, inr, Bool, true, false, Option,
  none, some, arith, ◌==◌, Bool-cases, Option-cases, Bytes,
}
use hatohol.Base.Int.{ℤ}
use package.hatohol.Server.SessionManager.{
  Session, Sessions, ◌>>=◌, unreffed, create, get_session, release, remove, timer_cb,
  invalid_event_id,
}
use package.hatohol.Server.SessionManager.Local.{View, Frame, cancelled, restarted-id, restarted}
use package.hatohol.Server.SessionManager.Operations.{
  release-Gives, remove-Returns, get_session-Returns,
}
use package.hatohol.Server.SessionManager.Sound.{
  HasTimer, IsCounted, mapped_to, IsSound, Frame-IsSound,
}

pub data Call : Type 0 where
  create_call : ℤ → Bytes → ℕ → ℕ → ℕ → ℕ → ℕ → Call
  get_session_call : Bytes → ℕ → ℕ → Call
  release_call : ℕ → Call
  remove_call : Bytes → Call
  timer_call : ℕ → Call

unfoldable pub call : Call → Sessions → Option Sessions
unfolding create get_session release remove timer_cb
call (create_call user id timeout default p source now) m =
    create user id timeout default p source now m
call (get_session_call id source now) m = get_session id source now m >>= λ r. some r.1
call (release_call p) m = release p m
call (remove_call id) m = remove id m >>= λ r. some r.1
call (timer_call p) m = timer_cb p m

-- A new session has an address that is free and an ID that is new; what is released is held; a
-- timer that fires is set.
abbrev pub CanCall : Call → Sessions → Type 0
CanCall (create_call user id timeout default p source now) m =
    (m.session p ≡ none)
    × ((q : ℕ) (s : Session) → m.session q ≡ some s → s.id ≢ id)
    × ((source == invalid_event_id) ≡ false)
CanCall (get_session_call id source now) m = (source == invalid_event_id) ≡ false
CanCall (release_call p) m = 0 < m.handles p
CanCall (remove_call id) m = Unit {0}
CanCall (timer_call p) m = (s : Session) × (m.session p ≡ some s) × HasTimer s

-- What a call leaves of a session.
module _ (s : Session) (n : ℕ) where
  timer-two : IsCounted (some s) n true → HasTimer s → 2 ≤ s.used_count
  timer-two c h = ground (arith, c.0, h)

  cancelled_pos : IsCounted (some s) n true → 0 < (cancelled s).used_count
  cancelled_pos c = ground (arith, c.0, c.1)

  unreffed-cancelled : IsCounted (some s) n true → IsCounted (unreffed (cancelled s)) n false
  unreffed-cancelled c = ground arith

  pub restarted-IsCounted :
      (source now : ℕ)
      → (source == invalid_event_id) ≡ false
      → IsCounted (some s) n true
      → IsCounted
          (some (restarted source now (record s { used_count = suc s.used_count })))
          (suc n)
          true
  restarted-IsCounted source now h c = ground arith

  released-IsCounted : (b : Bool) → IsCounted (some s) (suc n) b → IsCounted (unreffed s) n b
  released-IsCounted b c = ground arith

  pub fired-IsCounted :
      HasTimer s
      → IsCounted (some s) n true
      → IsCounted
          (unreffed (record s { timer_id = invalid_event_id; used_count = s.used_count - 1 }))
          n
          false
  fired-IsCounted h c = ground arith

cancelled-id : (s : Session) → (cancelled s).id ≡ s.id
cancelled-id s = ground arith

pub some-injective : (s t : Session) → some s ≡ some t → s ≡ t
some-injective s t e = ap (λ o. elim o [ none ↦ s | some u ↦ u ]) e

pub unreffed-id : (s t : Session) → unreffed s ≡ some t → t.id ≡ s.id
unreffed-id s t e = ground arith

module _ (m : Sessions) (sound : IsSound m) where
  -- A call from `m` returns, and every session is sound again.
  abbrev pub Keeps : Option Sessions → Type 0
  Keeps r = (t : Sessions) × (r ≡ some t) × IsSound t

  -- The session `s` stands at `p`, in the map if `b` is true.
  module _ (p : ℕ) (s : Session) (b : Bool) (stands : m.session p ≡ some s)
      (mapped : m.session_id_map s.id ≡ mapped_to b p)
      (own : (id : Bytes) → m.session_id_map id ≡ some p → id ≡ s.id) where
    pub view : View p s.id (some s) (m.handles p) (mapped_to b p) m
    view = record { stands = stands; held = refl; mapped = mapped }

    pub keeps :
        (o : Option Session) (n : ℕ) (c : Bool) (t : Sessions)
        → View p s.id o n (mapped_to c p) t
        → Frame p s.id m t
        → IsCounted o n c
        → ((u : Session) → o ≡ some u → u.id ≡ s.id)
        → IsSound t
    keeps o n c t w f counted keyed =
        Frame-IsSound p s.id c sound (λ q u e i. sound.distinct p q s u stands e (sym i)) own w f
          counted keyed

    release-Keeps :
        (n : ℕ) → m.handles p ≡ suc n → IsCounted (some s) (m.handles p) b → Keeps (release p m)
    release-Keeps n h c =
        let d : IsCounted (some s) (suc n) b = subst (λ x. IsCounted (some s) x b) h c in
        let (t, e, w, f) =
          release-Gives p s.id m d.1 (record { stands = stands; held = h; mapped = mapped }) in
        (t, e, keeps (unreffed s) n b t w f (released-IsCounted s n b d) (unreffed-id s))

  -- Where a session stands that an ID is mapped to, or a smart pointer points to.
  pub standing : (p : ℕ) → (m.session p ≡ none → ⊥) → (s : Session) × (m.session p ≡ some s)
  standing p h = elim (Option-cases (m.session p)) [ inl e ↦ absurd (h e) | inr (s, e) ↦ (s, e) ]

  pub release_call-Keeps : (p : ℕ) → 0 < m.handles p → Keeps (release p m)
  release_call-Keeps p l =
      let (s, e) = standing p (λ h. omega (arith, (sound.freed p h).0)) in
      let (b, c, mapped, own) = sound.lives p s e in
      release-Keeps p s b e mapped own (m.handles p - 1) (omega arith) c

  -- The session that an ID is mapped to.
  pub found :
      (id : Bytes) (p : ℕ)
      → m.session_id_map id ≡ some p
      → (s : Session) × (m.session p ≡ some s)
        × (s.id ≡ id)
        × IsCounted (some s) (m.handles p) true
        × ((other : Bytes) → m.session_id_map other ≡ some p → other ≡ s.id)
  found id p h =
      let (s, e) = standing p (λ x. (sound.freed p x).1 id h) in
      let (b, c, mapped, own) = sound.lives p s e in
      let same : id ≡ s.id = own id h in
      (
        s,
        e,
        sym same,
        elim (Bool-cases b) [
          | inl y ↦ subst (IsCounted (some s) (m.handles p)) y c
          | inr y ↦ absurd (
              ground (arith, sym h ∙ ap m.session_id_map same ∙ mapped ∙ ap (λ b. mapped_to b p) y))
        ],
        own,
      )

  -- Any call that looks up an ID and finds none changes nothing.
  remove_found :
      (id : Bytes) (p : ℕ) → m.session_id_map id ≡ some p → Keeps (remove id m >>= λ r. some r.1)
  remove_found id p h =
      let (s, e, same, c, own) = found id p h in
      let mapped : m.session_id_map s.id ≡ some p = ap m.session_id_map same ∙ h in
      let (t, r, w, f) =
        remove-Returns p s.id m (timer-two s (m.handles p) c) (cancelled_pos s (m.handles p) c)
          (view p s true e mapped own) in
      (
        t,
        ap (λ id. remove id m >>= λ r. some r.1) (sym same) ∙ ap (λ x. x >>= λ r. some r.1) r,
        keeps p s true e mapped own (unreffed (cancelled s)) (m.handles p) false t w f
            (unreffed-cancelled s (m.handles p) c)
            (λ u x. unreffed-id (cancelled s) u x ∙ cancelled-id s),
      )

  get_session_found :
      (id : Bytes) (p source now : ℕ)
      → (source == invalid_event_id) ≡ false
      → m.session_id_map id ≡ some p
      → Keeps (get_session id source now m >>= λ r. some r.1)
  get_session_found id p source now l h =
      let (s, e, same, c, own) = found id p h in
      let mapped : m.session_id_map s.id ≡ some p = ap m.session_id_map same ∙ h in
      let (t, r, w, f) =
        get_session-Returns p s.id source now m c.1 refl (view p s true e mapped own) in
      let more : Session = record s { used_count = suc s.used_count } in
      (
        t,
        ap (λ id. get_session id source now m >>= λ r. some r.1) (sym same)
            ∙ ap (λ x. x >>= λ r. some r.1) r,
        keeps p s true e mapped own (some (restarted source now more)) (suc (m.handles p)) true t w
            f (restarted-IsCounted s (m.handles p) source now l c)
            (λ u x.
              ap (λ (v : Session). v.id) (some-injective u (restarted source now more) (sym x))
              ∙ restarted-id source now more),
      )

  pub remove-Keeps : (id : Bytes) → Keeps (remove id m >>= λ r. some r.1)
  unfolding remove
  remove-Keeps id = elim (Option-cases (m.session_id_map id)) [
    | inl e ↦ (m, ground (arith, e), sound)
    | inr (p, e) ↦ remove_found id p e
  ]

  pub get_session-Keeps :
      (id : Bytes) (source now : ℕ)
      → (source == invalid_event_id) ≡ false
      → Keeps (get_session id source now m >>= λ r. some r.1)
  unfolding get_session
  get_session-Keeps id source now l = elim (Option-cases (m.session_id_map id)) [
    | inl e ↦ (m, ground (arith, e), sound)
    | inr (p, e) ↦ get_session_found id p source now l e
  ]
