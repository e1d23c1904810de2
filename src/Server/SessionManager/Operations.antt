-- ===== src/Server/SessionManager/Operations.antt =====
-- What the operations of the session manager do to one session and to one ID.
use hatohol.Base.{
  ℕ, suc, ◌-◌, ◌≤◌, ◌<◌, ◌≡◌, sym, ap, subst, ◌∙◌, Bool, true, false, Option, none, some, arith,
  ◌==◌, if◌then◌else◌, Bytes,
}
use package.hatohol.Server.SessionManager.{
  Session, Sessions, ◌>>=◌, set_id, set_handles, change, ref, unreffed, unref, cancel_timer,
  started, restart_timer, insert_session, update_timer, hold, get_session, release, remove,
  invalid_event_id,
}
use package.hatohol.Server.SessionManager.Local.{
  View, Frame, Gives, cancelled, timed, restarted, restarted-id, Gives-some, Gives-bind,
  Gives-session, set_id-Gives, set_handles-Gives, change-Gives, unref-Gives, cancel_timer-Gives,
}

module _ (p : ℕ) (k : Bytes) where
  start-Gives :
      (b : Bool) {s : Session} {n : ℕ} {v : Option ℕ} (source : ℕ) (m : Sessions)
      → View p k (some s) n v m
      → Gives p k
          (some (if b then s else record s { timer_id = source; used_count = suc s.used_count }))
          n
          v
          m
          (if b then some m else change p (λ s. record s { timer_id = source }) m >>= ref p)
  start-Gives true source m w = Gives-some p k m w
  start-Gives false source m w =
      Gives-bind p k m (change p (λ s. record s { timer_id = source }) m) (ref p)
        (change-Gives p k (λ s. record s { timer_id = source }) m w)
        (λ t x. change-Gives p k (λ s. record s { used_count = suc s.used_count }) t x)

  started-Gives :
      {s : Session} {n : ℕ} {v : Option ℕ} (source : ℕ) (m : Sessions)
      → View p k (some s) n v m
      → Gives p k (some (timed source s)) n v m (started p source m)
  started-Gives {s} source m w =
      Gives-session p k m
        (λ s.
          if s.timeout == 0
          then some m
          else change p (λ s. record s { timer_id = source }) m >>= ref p)
        w (start-Gives (s.timeout == 0) source m w)

  pub restart_timer-Gives :
      {s : Session} {n : ℕ} {v : Option ℕ} (source now : ℕ) (m : Sessions)
      → ((s.timer_id == invalid_event_id) ≡ false → 2 ≤ s.used_count)
      → View p k (some s) n v m
      → Gives p k (some (restarted source now s)) n v m (restart_timer p source now m)
  unfolding restart_timer
  restart_timer-Gives source now m l w =
      Gives-bind p k m (cancel_timer p m >>= started p source)
        (change p (λ s. record s { last_access_time = now }))
        (Gives-bind p k m (cancel_timer p m) (started p source) (cancel_timer-Gives p k m l w)
          (λ t x. started-Gives source t x))
        (λ t x. change-Gives p k (λ s. record s { last_access_time = now }) t x)

  pub insert_session-Gives :
      {s : Session} {n : ℕ} {v : Option ℕ} (m : Sessions)
      → s.id ≡ k
      → View p k (some s) n v m
      → Gives p k (some s) n (some p) m (insert_session p m)
  unfolding insert_session
  insert_session-Gives {s} {n} m e w =
      Gives-session p k m (λ s. some (set_id s.id (some p) m)) w
        (subst (λ id. Gives p k (some s) n (some p) m (some (set_id id (some p) m))) (sym e)
          (set_id-Gives p k (some p) m w))

  pub update_timer-Gives :
      {s : Session} {n : ℕ} {v : Option ℕ} (source now : ℕ) (m : Sessions)
      → ((s.timer_id == invalid_event_id) ≡ false → 2 ≤ s.used_count)
      → s.id ≡ k
      → View p k (some s) n v m
      → Gives p k (some (restarted source now s)) n (some p) m (update_timer p source now m)
  unfolding update_timer
  update_timer-Gives {s} source now m l e w =
      Gives-bind p k m (restart_timer p source now m) (insert_session p)
        (restart_timer-Gives source now m l w)
        (λ t x. insert_session-Gives t (restarted-id source now s ∙ e) x)

  pub hold-Gives :
      {s : Session} {n : ℕ} {v : Option ℕ} (m : Sessions)
      → View p k (some s) n v m
      → Gives p k (some (record s { used_count = suc s.used_count })) (suc n) v m (hold p m)
  hold-Gives {s} {n} {v} m w =
      Gives-bind p k m (some (set_handles p (suc (m.handles p)) m)) (ref p)
        (subst (λ h. Gives p k (some s) (suc n) v m (some (set_handles p (suc h) m))) (sym w.held)
          (set_handles-Gives p k (suc n) m w))
        (λ t x. change-Gives p k (λ s. record s { used_count = suc s.used_count }) t x)

  pub release-Gives :
      {s : Session} {n : ℕ} {v : Option ℕ} (m : Sessions)
      → 0 < s.used_count
      → View p k (some s) (suc n) v m
      → Gives p k (unreffed s) n v m (release p m)
  unfolding release
  release-Gives {s} {n} {v} m l w =
      Gives-bind p k m (some (set_handles p (m.handles p - 1) m)) (unref p)
        (subst (λ h. Gives p k (some s) n v m (some (set_handles p (h - 1) m))) (sym w.held)
          (subst (λ h. Gives p k (some s) n v m (some (set_handles p h m))) (omega arith)
            (set_handles-Gives p k n m w)))
        (λ t x. unref-Gives p k t l x)

  abbrev pub Returns :
      {A : Type 0} → Option Session → ℕ → Option ℕ → Sessions → A → Option (A × Sessions) → Type 0
  Returns o n v m a r = (t : Sessions) × (r ≡ some (a, t)) × View p k o n v t × Frame p k m t

  pub Gives-Returns :
      {A : Type 0} {o : Option Session} {n : ℕ} {v : Option ℕ} (m : Sessions) (a : A)
      (r : Option Sessions)
      → Gives p k o n v m r
      → Returns o n v m a (r >>= λ t. some (a, t))
  Gives-Returns m a r (t, e, w, f) = (t, ap (λ x. x >>= λ t. some (a, t)) e, w, f)

  pub remove-Returns :
      {s : Session} {n : ℕ} (m : Sessions)
      → ((s.timer_id == invalid_event_id) ≡ false → 2 ≤ s.used_count)
      → 0 < (cancelled s).used_count
      → View p k (some s) n (some p) m
      → Returns (unreffed (cancelled s)) n none m true (remove k m)
  unfolding remove
  remove-Returns {s} {n} m l c w =
      subst
        (λ v.
          Returns (unreffed (cancelled s)) n none m true
            (elim v as (λ _. Option (Bool × Sessions)) [
              | none ↦ some (false, m)
              | some q ↦ cancel_timer q (set_id k none m) >>= unref q >>= λ m'. some (true, m')
            ]))
        (sym w.mapped)
        (Gives-Returns m true (cancel_timer p (set_id k none m) >>= unref p) (
          Gives-bind p k m (cancel_timer p (set_id k none m)) (unref p)
            (Gives-bind p k m (some (set_id k none m)) (cancel_timer p) (set_id-Gives p k none m w)
              (λ t x. cancel_timer-Gives p k t l x))
            (λ t x. unref-Gives p k t c x)))

  pub get_session-Returns :
      {s : Session} {n : ℕ} (source now : ℕ) (m : Sessions)
      → 0 < s.used_count
      → s.id ≡ k
      → View p k (some s) n (some p) m
      → Returns
          (some (restarted source now (record s { used_count = suc s.used_count })))
          (suc n)
          (some p)
          m
          (some p)
          (get_session k source now m)
  unfolding get_session
  get_session-Returns {s} {n} source now m l e w =
      subst
        (λ v.
          Returns (some (restarted source now (record s { used_count = suc s.used_count }))) (suc n)
            (some p) m (some p)
            (elim v as (λ _. Option (Option ℕ × Sessions)) [
              | none ↦ some (none, m)
              | some q ↦ hold q m >>= update_timer q source now >>= λ m'. some (some q, m')
            ]))
        (sym w.mapped)
        (Gives-Returns m (some p) (hold p m >>= update_timer p source now) (
          Gives-bind p k m (hold p m) (update_timer p source now) (hold-Gives m w)
            (λ t x. update_timer-Gives source now t (λ _. omega arith) e x)))
