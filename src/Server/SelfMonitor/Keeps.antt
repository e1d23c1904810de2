-- ===== src/Server/SelfMonitor/Keeps.antt =====
-- What the calls of the notification handlers keep of the other monitors.
use hatohol.Base.{
  ℕ, ◌≡◌, refl, sym, ap, subst, ◌∙◌, ◌⊎◌, inl, inr, Bool, true, false, not, List, [], ◌∷◌, arith,
  ◌==◌, if◌then◌else◌, ==_iff, Bool-cases,
}
use package.hatohol.Server.SelfMonitor.{
  SelfMonitor, Monitors, Call, Result, done, thrown, out_of_fuel, update_call, set_workable_call,
  put, and_then, visible, begun, ended, set_workable_with, calls_loop, listeners_loop,
  trigger_status_unknown, unworkable_visible_status,
}

-- A monitor in no call shows the actual status while it is workable, and the last that was known.
abbrev pub ShowsActual : SelfMonitor → Type 0
ShowsActual m =
    (m.in_set_workable_call ≡ false)
    × (m.status ≡ (if not m.workable then trigger_status_unknown else m.actual_status))
    × ((m.status ≡ trigger_status_unknown) ⊎ (m.last_known_status ≡ m.status))

-- What holds of a monitor also while others are in an update.
abbrev pub IsConsistent : SelfMonitor → Type 0
IsConsistent m = m.in_updating ≡ false → ShowsActual m

abbrev pub IsConsistentBut : ℕ → Monitors → Type 0
IsConsistentBut id s = (i : ℕ) → (i == id) ≡ false → IsConsistent (s.monitor i)

-- What no call changes: which monitors are in an update, and all of those that are.
abbrev pub Frame : Monitors → Monitors → Type 0
Frame s t =
    (i : ℕ)
    → ((t.monitor i).in_updating ≡ (s.monitor i).in_updating)
      × ((s.monitor i).in_updating ≡ true → t.monitor i ≡ s.monitor i)

abbrev pub IsAllConsistent : Monitors → Type 0
IsAllConsistent s = (i : ℕ) → IsConsistent (s.monitor i)

Frame-trans : (s t u : Monitors) → Frame s t → Frame t u → Frame s u
Frame-trans s t u f g i = ((g i).0 ∙ (f i).0, λ b. (g i).1 ((f i).0 ∙ b) ∙ (f i).1 b)

abbrev pub Keeps : Monitors → Monitors → Type 0
Keeps s t = Frame s t × (IsAllConsistent s → IsAllConsistent t)

Keeps-refl : (s : Monitors) → Keeps s s
Keeps-refl s = ((λ i. (refl, λ b. refl)), λ c. c)

Keeps-trans : (s t u : Monitors) → Keeps s t → Keeps t u → Keeps s u
Keeps-trans s t u (f, c) (g, d) = (Frame-trans s t u f g, λ h. d (c h))

pub and_then-done :
    (r : Result) (f : Monitors → Result) (u : Monitors)
    → and_then r f ≡ done u
    → (t : Monitors) × (r ≡ done t) × (f t ≡ done u)
and_then-done (done t) f u h = (t, refl, h)
and_then-done thrown f u h = absurd (ground (arith, h))
and_then-done out_of_fuel f u h = absurd (ground (arith, h))

pub done-injective : {s t : Monitors} → done s ≡ done t → s ≡ t
done-injective {s = s} e = ap (λ r. elim r [ done t ↦ t | _ ↦ s ]) e

pub put-here : (id : ℕ) (m : SelfMonitor) (s : Monitors) → (put id m s).monitor id ≡ m
put-here id m s = rw ((==_iff id id).1 refl) refl

pub put-other :
    (id : ℕ) (m : SelfMonitor) (s : Monitors) (i : ℕ)
    → (i == id) ≡ false
    → (put id m s).monitor i ≡ s.monitor i
put-other id m s i h = rw h refl

-- A property of all monitors, from the one of `id` and the others.
pub by_monitor :
    (P : ℕ → Type 0) (id : ℕ) → P id → ((i : ℕ) → (i == id) ≡ false → P i) → (i : ℕ) → P i
by_monitor P id p f i = elim (Bool-cases (i == id)) [
  | inl e ↦ subst P (sym ((==_iff i id).0 e)) p
  | inr e ↦ f i e
]

-- A monitor while `setWorkable` calls `update`, the status that it passes, and the monitors before.
abbrev pub called : SelfMonitor → Bool → SelfMonitor
called m workable = record m { in_set_workable_call = true; workable = workable }

abbrev pub passed : SelfMonitor → Bool → ℕ
passed m workable = if workable then m.actual_status else unworkable_visible_status

abbrev pub calling : Monitors → ℕ → Bool → Monitors
calling s id workable = put id (called (s.monitor id) workable) s

abbrev pub cleared : SelfMonitor → SelfMonitor
cleared m = record m { in_set_workable_call = false }

module _ (alive stateless : ℕ → Bool) (handler : ℕ → ℕ → ℕ → ℕ → List (ℕ × Call)) where
  -- How `update` ends: the monitor was in no update, and is now what the update makes of it.
  abbrev pub IsUpdated : Monitors → ℕ → ℕ → Monitors → Type 0
  IsUpdated s id status t =
      let m = s.monitor id in
      (m.in_updating ≡ false)
      × (t.monitor id ≡ ended alive (begun m status) (visible m status))
      × ((i : ℕ)
          → (i == id) ≡ false
          → ((t.monitor i).in_updating ≡ (s.monitor i).in_updating)
            × ((s.monitor i).in_updating ≡ true → t.monitor i ≡ s.monitor i))
      × (IsConsistentBut id s → IsConsistentBut id t)

  abbrev pub Updates : (Monitors → ℕ → ℕ → Result) → Type 0
  Updates upd =
      (s : Monitors) (id status : ℕ) (t : Monitors)
      → upd s id status ≡ done t
      → IsUpdated s id status t

  -- A monitor in an update is not the one that an update ends on.
  idle :
      (m n : SelfMonitor)
      → m.in_updating ≡ false
      → n.in_updating ≡ false
      → (n.in_updating ≡ m.in_updating) × (m.in_updating ≡ true → n ≡ m)
  idle m n h k = (k ∙ sym h, λ b. absurd (ground (arith, h, b)))

  ended-IsConsistent :
      (m : SelfMonitor) (status : ℕ)
      → m.in_set_workable_call ≡ false
      → IsConsistent (ended alive (begun m status) (visible m status))
  ended-IsConsistent m status h i = ground (arith, h)

  cleared-IsConsistent :
      (m n : SelfMonitor) (workable : Bool) (status : ℕ)
      → m ≡ record n { in_set_workable_call = true; workable = workable }
      → status ≡ (if workable then n.actual_status else unworkable_visible_status)
      → IsConsistent (record (ended alive (begun m status) (visible m status)) {
        in_set_workable_call = false;
      })
  cleared-IsConsistent m n workable status h k i =
      let a = ap (λ x. x.in_set_workable_call) h in
      let b = ap (λ x. x.workable) h in
      let c = ap (λ x. x.actual_status) h in ground (arith, a, b, c, k)

  pub update-Keeps :
      (s : Monitors) (id status : ℕ) (t : Monitors) → IsUpdated s id status t → Keeps s t
  update-Keeps s id status t (b, e, f, c) = (
    by_monitor
        (λ i.
          ((t.monitor i).in_updating ≡ (s.monitor i).in_updating)
          × ((s.monitor i).in_updating ≡ true → t.monitor i ≡ s.monitor i))
        id (idle (s.monitor id) (t.monitor id) b (ap (λ m. m.in_updating) e)) f,
    λ h.
        by_monitor (λ i. IsConsistent (t.monitor i)) id
          (subst IsConsistent (sym e) (ended-IsConsistent (s.monitor id) status (h id b).0))
          (c (λ i n. h i)),
  )

  pub set_workable_with-done :
      (upd : Monitors → ℕ → ℕ → Result) (s : Monitors) (id : ℕ) (workable : Bool) (u : Monitors)
      → Updates upd
      → set_workable_with alive stateless handler upd s id workable ≡ done u
      → (t : Monitors) × IsUpdated (calling s id workable) id (passed (s.monitor id) workable) t
        × (u ≡ put id (cleared (t.monitor id)) t)
  unfolding set_workable_with
  set_workable_with-done upd s id workable u updates h =
      let (t, e, f) =
        (and_then-done (upd (calling s id workable) id (passed (s.monitor id) workable))
          (λ t. done (put id (cleared (t.monitor id)) t)) u h) in
      (
        t,
        updates (calling s id workable) id (passed (s.monitor id) workable) t e,
        sym (done-injective f),
      )

  pub set_workable-Keeps :
      (s : Monitors) (id : ℕ) (workable : Bool) (t : Monitors)
      → IsUpdated (calling s id workable) id (passed (s.monitor id) workable) t
      → Keeps s (put id (cleared (t.monitor id)) t)
  set_workable-Keeps s id workable t (b, e, f, c) =
      let m = s.monitor id in
      let s1 = calling s id workable in
      let u = put id (cleared (t.monitor id)) t in
      let here = put-here id (called m workable) s in
      let there = put-here id (cleared (t.monitor id)) t in
      let before : m.in_updating ≡ false = sym (ap (λ x. x.in_updating) here) ∙ b in
      let after : (u.monitor id).in_updating ≡ false =
        ap (λ x. x.in_updating) there ∙ ap (λ x. x.in_updating) e in
      (
        by_monitor
            (λ i.
              ((u.monitor i).in_updating ≡ (s.monitor i).in_updating)
              × ((s.monitor i).in_updating ≡ true → u.monitor i ≡ s.monitor i))
            id (idle m (u.monitor id) before after)
            (λ i n.
              let o = put-other id (cleared (t.monitor id)) t i n in
              let p = put-other id (called m workable) s i n in
              (
                ap (λ x. x.in_updating) o ∙ (f i n).0 ∙ ap (λ x. x.in_updating) p,
                λ y. o ∙ (f i n).1 (ap (λ x. x.in_updating) p ∙ y) ∙ p,
              )),
        λ h.
            by_monitor (λ i. IsConsistent (u.monitor i)) id
              (subst IsConsistent (sym (there ∙ ap cleared e))
                (cleared-IsConsistent (s1.monitor id) m workable (passed m workable) here refl))
              (λ i n. subst IsConsistent (sym (put-other id (cleared (t.monitor id)) t i n)) (
                c (λ j k. subst IsConsistent (sym (put-other id (called m workable) s j k)) (h j)) i
                  n)),
      )

  pub calls_loop-Keeps :
      (upd : Monitors → ℕ → ℕ → Result) (cs : List (ℕ × Call)) (s u : Monitors)
      → Updates upd
      → calls_loop alive stateless handler upd cs s ≡ done u
      → Keeps s u
  unfolding calls_loop
  calls_loop-Keeps upd [] s u updates h = subst (Keeps s) (done-injective h) (Keeps-refl s)
  calls_loop-Keeps upd ((id, update_call status) ∷ cs) s u updates h =
      let (t, e, f) =
        and_then-done (upd s id status) (calls_loop alive stateless handler upd cs) u h in
      Keeps-trans s t u (update-Keeps s id status t (updates s id status t e))
        (calls_loop-Keeps upd cs t u updates f)
  calls_loop-Keeps upd ((id, set_workable_call workable) ∷ cs) s u updates h =
      let (t, e, f) =
        (and_then-done (set_workable_with alive stateless handler upd s id workable)
          (calls_loop alive stateless handler upd cs) u h) in
      let (v, d, g) = set_workable_with-done upd s id workable t updates e in
      Keeps-trans s t u (subst (Keeps s) (sym g) (set_workable-Keeps s id workable v d))
        (calls_loop-Keeps upd cs t u updates f)

  pub listeners_loop-Keeps :
      (upd : Monitors → ℕ → ℕ → Result) (id prev_status new_status : ℕ) (ls : List ℕ)
      (s u : Monitors)
      → Updates upd
      → listeners_loop alive stateless handler upd id prev_status new_status ls s ≡ done u
      → Keeps s u
  unfolding listeners_loop
  listeners_loop-Keeps upd id prev_status new_status [] s u updates h =
      subst (Keeps s) (done-injective h) (Keeps-refl s)
  listeners_loop-Keeps upd id prev_status new_status (l ∷ ls) s u updates h =
      elim (Bool-cases (alive l)) [
        | inl a ↦
            let (t, e, f) =
              (and_then-done
                (calls_loop alive stateless handler upd (handler l id prev_status new_status) s)
                (listeners_loop alive stateless handler upd id prev_status new_status ls) u
                (rw a at h)) in
            Keeps-trans s t u
              (calls_loop-Keeps upd (handler l id prev_status new_status) s t updates e)
              (listeners_loop-Keeps upd id prev_status new_status ls t u updates f)
        | inr a ↦ listeners_loop-Keeps upd id prev_status new_status ls s u updates (rw a at h)
      ]
