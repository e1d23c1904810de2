-- ===== src/Server/SelfMonitor/Status.antt =====
-- What a monitor shows after `update` and `setWorkable`, whatever its listeners do.
use hatohol.Base.{
  ℕ, zero, suc, ◌≡◌, refl, sym, ap, subst, ◌∙◌, inl, inr, Bool, true, false, not, List, [], ◌++◌,
  arith, if◌then◌else◌, Bool-cases, if-false,
}
use package.hatohol.Server.SelfMonitor.{
  SelfMonitor, Monitors, Call, done, put, visible, begun, ended, calls_loop, init, listeners_loop,
  effects_of, update, set_workable, trigger_status_unknown,
}
use package.hatohol.Server.SelfMonitor.Keeps.{
  ShowsActual, IsConsistent, Keeps, and_then-done, done-injective, put-here, put-other, by_monitor,
  IsUpdated, Updates, called, passed, calling, cleared, set_workable_with-done,
  listeners_loop-Keeps, calls_loop-Keeps,
}

-- New monitors, with any listeners and event generators.
abbrev pub new_monitors : (ℕ → List ℕ) → (ℕ → ℕ → ℕ → ℕ) → Monitors
new_monitors listeners generators = record {
  monitor = λ i. record init { listeners = listeners i; event_generators = generators i };
  effects = [];
}

module _ (alive stateless : ℕ → Bool) (handler : ℕ → ℕ → ℕ → ℕ → List (ℕ × Call)) where
  abbrev pub begins : Monitors → ℕ → ℕ → Monitors
  begins s id status =
      let m = s.monitor id in
      record (put id (begun m status) s) {
        effects = effects_of alive stateless handler m id status ++ s.effects;
      }

  update-IsUpdated :
      (s : Monitors) (id status : ℕ) (t : Monitors)
      → (s.monitor id).in_updating ≡ false
      → Keeps (begins s id status) t
      → IsUpdated alive stateless handler s id status
          (put id (ended alive (t.monitor id) (visible (s.monitor id) status)) t)
  update-IsUpdated s id status t idle (f, c) =
      let m = s.monitor id in
      let n = ended alive (t.monitor id) (visible m status) in
      let here = put-here id (begun m status) s in
      let same : t.monitor id ≡ begun m status = (f id).1 (ap (λ x. x.in_updating) here) ∙ here in
      (
        idle,
        put-here id n t ∙ ap (λ x. ended alive x (visible m status)) same,
        λ i k.
            let o = put-other id n t i k in
            let p = put-other id (begun m status) s i k in
            (
              ap (λ x. x.in_updating) o ∙ (f i).0 ∙ ap (λ x. x.in_updating) p,
              λ y. o ∙ (f i).1 (ap (λ x. x.in_updating) p ∙ y) ∙ p,
            ),
        λ h i k. subst IsConsistent (sym (put-other id n t i k)) (
            c
              (by_monitor (λ j. IsConsistent ((begins s id status).monitor j)) id
                (subst IsConsistent (sym here) (λ b. absurd (ground (arith, b))))
                (λ j l. subst IsConsistent (sym (put-other id (begun m status) s j l)) (h j l)))
              i),
      )

  pub update-Updates :
      (fuel : ℕ) → Updates alive stateless handler (update alive stateless handler fuel)
  unfolding update
  update-Updates zero s id status t h = absurd (ground (arith, h))
  update-Updates (suc fuel) s id status u h = elim (Bool-cases (s.monitor id).in_updating) [
    | inl b ↦ absurd (ground (arith, h, b))
    | inr b ↦
        let m = s.monitor id in
        let (t, e, f) =
          (and_then-done
            (listeners_loop alive stateless handler (update alive stateless handler fuel) id
              m.status (visible m status) m.listeners (begins s id status))
            (λ t. done (put id (ended alive (t.monitor id) (visible m status)) t)) u
            (sym (if-false _ _ b) ∙ h)) in
        subst (IsUpdated alive stateless handler s id status) (done-injective f) (
          update-IsUpdated s id status t b (
            listeners_loop-Keeps alive stateless handler (update alive stateless handler fuel) id
              m.status (visible m status) m.listeners (begins s id status) t (update-Updates fuel)
              e))
  ]

  -- After any history of `update` and `setWorkable`, from new monitors with any listeners and event
  -- generators, that throws nothing, no monitor is in an update or in a call of `setWorkable`. Each
  -- shows its actual status while it is workable and that it is unknown otherwise, and a status that
  -- it shows is the last that was known unless it is unknown. Notification handlers may call both
  -- methods of any monitors.
  pub calls_loop-ShowsActual :
      (listeners : ℕ → List ℕ) (generators : ℕ → ℕ → ℕ → ℕ) (fuel : ℕ) (cs : List (ℕ × Call))
      (t : Monitors)
      → calls_loop alive stateless handler
          (update alive stateless handler fuel)
          cs
          (new_monitors listeners generators)
        ≡ done t
      → (i : ℕ) → ((t.monitor i).in_updating ≡ false) × ShowsActual (t.monitor i)
  calls_loop-ShowsActual listeners generators fuel cs t h i =
      let (f, c) =
        (calls_loop-Keeps alive stateless handler (update alive stateless handler fuel) cs
          (new_monitors listeners generators) t (update-Updates fuel) h) in
      let idle = (f i).0 in (idle, c (λ j b. (refl, refl, inl refl)) i idle)

  updated_status :
      (s : Monitors) (id status : ℕ) (t : Monitors) (m : SelfMonitor)
      → s.monitor id ≡ m
      → IsUpdated alive stateless handler s id status t
      → ((t.monitor id).status ≡ visible m status)
        × ((t.monitor id).workable ≡ m.workable)
        × ((t.monitor id).actual_status
            ≡ (if not m.in_set_workable_call then status else m.actual_status))
  updated_status s id status t m h (b, e, f, c) =
      let k = e ∙ ap (λ x. ended alive (begun x status) (visible x status)) h in
      (ap (λ x. x.status) k, ap (λ x. x.workable) k, ap (λ x. x.actual_status) k)

  -- After `setWorkable` with false a monitor shows that its status is unknown, also after the next
  -- `update`, whose status it shows after `setWorkable` with true; none of the three throws, and the
  -- monitor was not in a call of `setWorkable`.
  pub set_workable-update :
      (f g h : ℕ) (s t u v : Monitors) (id status : ℕ)
      → set_workable alive stateless handler f s id false ≡ done t
      → update alive stateless handler g t id status ≡ done u
      → set_workable alive stateless handler h u id true ≡ done v
      → ((t.monitor id).status ≡ trigger_status_unknown)
        × ((u.monitor id).status ≡ trigger_status_unknown)
        × ((v.monitor id).status ≡ status)
  unfolding set_workable
  set_workable-update f g h s t u v id status e k l =
      let (t1, d1, p1) =
        (set_workable_with-done alive stateless handler (update alive stateless handler f) s id
          false t (update-Updates f) e) in
      let d2 = update-Updates g t id status u k in
      let (v1, d3, p3) =
        (set_workable_with-done alive stateless handler (update alive stateless handler h) u id true
          v (update-Updates h) l) in
      let m = s.monitor id in
      let at_t : t.monitor id ≡ cleared (t1.monitor id) =
        ap (λ x. x.monitor id) p1 ∙ put-here id (cleared (t1.monitor id)) t1 in
      let at_v : v.monitor id ≡ cleared (v1.monitor id) =
        ap (λ x. x.monitor id) p3 ∙ put-here id (cleared (v1.monitor id)) v1 in
      let st =
        updated_status (calling s id false) id (passed m false) t1 (called m false)
          (put-here id (called m false) s) d1 in
      let su = updated_status t id status u (t.monitor id) refl d2 in
      let sv =
        (updated_status (calling u id true) id (passed (u.monitor id) true) v1
          (called (u.monitor id) true) (put-here id (called (u.monitor id) true) u) d3) in
      let w = ap (λ x. x.workable) at_t in
      let c = ap (λ x. x.in_set_workable_call) at_t in
      let a = ap (λ x. x.status) at_t in
      let b = ap (λ x. x.status) at_v in
      (a ∙ st.0, ground (arith, su.0, w, st.1), b ∙ sv.0 ∙ ground (arith, su.2, c))
