-- ===== src/Server/SelfMonitor/Circular.antt =====
-- Listeners that listen to each other: `update` always returns, or finds the circle and throws.
use hatohol.Base.{
  ℕ, zero, suc, ◌<◌, ◌≡◌, ◌≢◌, refl, sym, ap, ◌∙◌, inl, inr, Bool, true, false, List, [], ◌∷◌,
  arith, ◌==◌, if◌then◌else◌, ==_iff, Bool-cases, if-true, if-false, All,
}
use package.hatohol.Server.SelfMonitor.{
  Monitors, Call, Result, done, thrown, out_of_fuel, update_call, set_workable_call, put, and_then,
  visible, begun, ended, set_workable_with, calls_loop, listeners_loop, update,
}
use package.hatohol.Server.SelfMonitor.Keeps.{
  put-here, put-other, by_monitor, Updates, called, passed, calling, cleared,
  set_workable_with-done, set_workable-Keeps, update-Keeps, calls_loop-Keeps,
}
use package.hatohol.Server.SelfMonitor.Status.{update-Updates, begins}

-- The monitors below `n` that are in no update.
abbrev pub idle_count : ℕ → Monitors → ℕ
idle_count zero s = 0
idle_count (suc n) s = if (s.monitor n).in_updating then idle_count n s else suc (idle_count n s)

abbrev Flags : Monitors → Monitors → Type 0
Flags s t = (i : ℕ) → (t.monitor i).in_updating ≡ (s.monitor i).in_updating

idle_count-Flags :
    (n : ℕ) (s t : Monitors)
    → ((i : ℕ) → i < n → (t.monitor i).in_updating ≡ (s.monitor i).in_updating)
    → idle_count n t ≡ idle_count n s
idle_count-Flags zero s t f = refl
idle_count-Flags (suc n) s t f =
    let ih = idle_count-Flags n s t (λ i l. f i (omega arith)) in
    ground (arith, f n (omega arith), ih)

-- One monitor that begins an update is one less that is idle.
idle_count-begins :
    (n id : ℕ) (s t : Monitors)
    → id < n
    → (s.monitor id).in_updating ≡ false
    → (t.monitor id).in_updating ≡ true
    → ((i : ℕ) → (i == id) ≡ false → (t.monitor i).in_updating ≡ (s.monitor i).in_updating)
    → suc (idle_count n t) ≡ idle_count n s
idle_count-begins zero id s t l h k f = absurd (omega (arith, l))
idle_count-begins (suc n) id s t l h k f = elim (Bool-cases (n == id)) [
  | inl e ↦
      let m = (==_iff n id).0 e in
      let same : (i : ℕ) → i < n → (t.monitor i).in_updating ≡ (s.monitor i).in_updating =
        λ i b. f i (ground (arith, b, m)) in
      let before : (s.monitor n).in_updating ≡ false = rw m h in
      let after : (t.monitor n).in_updating ≡ true = rw m k in
      ground (arith, before, after, idle_count-Flags n s t same)
  | inr e ↦
      let b : id < n = ground (arith, l, e) in
      ground (arith, f n e, idle_count-begins n id s t b h k f)
]

and_then-returns :
    (r : Result) (f : Monitors → Result)
    → r ≢ out_of_fuel
    → ((t : Monitors) → r ≡ done t → f t ≢ out_of_fuel)
    → and_then r f ≢ out_of_fuel
and_then-returns (done t) f h k = k t refl
and_then-returns thrown f h k = h
and_then-returns out_of_fuel f h k = h

module _ (alive stateless : ℕ → Bool) (handler : ℕ → ℕ → ℕ → ℕ → List (ℕ × Call)) (n : ℕ)
    (calls_below : (l id p q : ℕ) → All (λ c. c.0 < n) (handler l id p q)) where
  -- In every state with the flags of `s`, `upd` has fuel for every monitor.
  abbrev Fueled : (Monitors → ℕ → ℕ → Result) → Monitors → Type 0
  Fueled upd s = (t : Monitors) (id status : ℕ) → Flags s t → id < n → upd t id status ≢ out_of_fuel

  set_workable_with-returns :
      (upd : Monitors → ℕ → ℕ → Result) (s t : Monitors) (id : ℕ) (workable : Bool)
      → Fueled upd s
      → Flags s t
      → id < n
      → set_workable_with alive stateless handler upd t id workable ≢ out_of_fuel
  unfolding set_workable_with
  set_workable_with-returns upd s t id workable fueled f l =
      and_then-returns (upd (calling t id workable) id (passed (t.monitor id) workable))
        (λ u. done (put id (cleared (u.monitor id)) u))
        (fueled (calling t id workable) id (passed (t.monitor id) workable)
          (by_monitor
            (λ i. ((calling t id workable).monitor i).in_updating ≡ (s.monitor i).in_updating) id
            (ap (λ x. x.in_updating) (put-here id (called (t.monitor id) workable) t) ∙ f id)
            (λ i k.
              ap (λ x. x.in_updating) (put-other id (called (t.monitor id) workable) t i k) ∙ f i))
          l)
        (λ u e k. ground (arith, k))

  calls_loop-returns :
      (upd : Monitors → ℕ → ℕ → Result) (cs : List (ℕ × Call)) (s t : Monitors)
      → Updates alive stateless handler upd
      → Fueled upd s
      → Flags s t
      → All (λ c. c.0 < n) cs
      → calls_loop alive stateless handler upd cs t ≢ out_of_fuel
  unfolding calls_loop
  calls_loop-returns upd [] s t updates fueled f l = λ e. ground (arith, e)
  calls_loop-returns upd ((id, update_call status) ∷ cs) s t updates fueled f (l, ls) =
      and_then-returns (upd t id status) (calls_loop alive stateless handler upd cs)
        (fueled t id status f l)
        (λ u e.
          let k =
            (update-Keeps alive stateless handler t id status u (updates t id status u e)).0 in
          calls_loop-returns upd cs s u updates fueled (λ i. (k i).0 ∙ f i) ls)
  calls_loop-returns upd ((id, set_workable_call workable) ∷ cs) s t updates fueled f (l, ls) =
      and_then-returns (set_workable_with alive stateless handler upd t id workable)
        (calls_loop alive stateless handler upd cs)
        (set_workable_with-returns upd s t id workable fueled f l)
        (λ u e.
          let (v, d, g) =
            set_workable_with-done alive stateless handler upd t id workable u updates e in
          let k = (set_workable-Keeps alive stateless handler t id workable v d).0 in
          calls_loop-returns upd cs s u updates fueled
            (λ i. ap (λ x. (x.monitor i).in_updating) g ∙ (k i).0 ∙ f i) ls)

  listeners_loop-returns :
      (upd : Monitors → ℕ → ℕ → Result) (id p q : ℕ) (ls : List ℕ) (s t : Monitors)
      → Updates alive stateless handler upd
      → Fueled upd s
      → Flags s t
      → listeners_loop alive stateless handler upd id p q ls t ≢ out_of_fuel
  unfolding listeners_loop
  listeners_loop-returns upd id p q [] s t updates fueled f = λ e. ground (arith, e)
  listeners_loop-returns upd id p q (l ∷ ls) s t updates fueled f = elim (Bool-cases (alive l)) [
    | inl a ↦ rw a (
        and_then-returns (calls_loop alive stateless handler upd (handler l id p q) t)
          (listeners_loop alive stateless handler upd id p q ls)
          (calls_loop-returns upd (handler l id p q) s t updates fueled f (calls_below l id p q))
          (λ u e.
            let k =
              (calls_loop-Keeps alive stateless handler upd (handler l id p q) t u updates e).0 in
            listeners_loop-returns upd id p q ls s u updates fueled (λ i. (k i).0 ∙ f i)))
    | inr a ↦ rw a (listeners_loop-returns upd id p q ls s t updates fueled f)
  ]

  -- `update` returns or throws: the listeners that it notifies, and those that they notify, cannot
  -- go on for ever, on more fuel than there are monitors that are in no update. All monitors that
  -- are called are among `n`.
  pub update-returns :
      (fuel : ℕ) (s : Monitors) (id status : ℕ)
      → id < n
      → idle_count n s < fuel
      → update alive stateless handler fuel s id status ≢ out_of_fuel
  unfolding update
  update-returns zero s id status l h = absurd (omega (arith, h))
  update-returns (suc fuel) s id status l h = elim (Bool-cases (s.monitor id).in_updating) [
    | inl b ↦ λ e. ground (arith, b, e)
    | inr b ↦
        let m = s.monitor id in
        let t = begins alive stateless handler s id status in
        let here : (t.monitor id).in_updating ≡ true =
          ap (λ x. x.in_updating) (put-here id (begun m status) s) in
        let there : (i : ℕ)
            → (i == id) ≡ false
            → (t.monitor i).in_updating ≡ (s.monitor i).in_updating =
          λ i k. ap (λ x. x.in_updating) (put-other id (begun m status) s i k) in
        let less = idle_count-begins n id s t l b here there in
        let fueled : Fueled (update alive stateless handler fuel) t = λ u i st f k.
          update-returns fuel u i st k
            (omega (arith, less, h, idle_count-Flags n t u (λ j d. f j))) in
        λ e.
          and_then-returns
            (listeners_loop alive stateless handler (update alive stateless handler fuel) id
              m.status (visible m status) m.listeners t)
            (λ u. done (put id (ended alive (u.monitor id) (visible m status)) u))
            (listeners_loop-returns (update alive stateless handler fuel) id m.status
              (visible m status) m.listeners t t (update-Updates alive stateless handler fuel)
              fueled (λ i. refl))
            (λ u g k. ground (arith, k)) (sym (if-false _ _ b) ∙ e)
  ]

module _ (alive stateless : ℕ → Bool) (handler : ℕ → ℕ → ℕ → ℕ → List (ℕ × Call)) where
  busy-thrown :
      (fuel : ℕ) (s : Monitors) (id status : ℕ)
      → (s.monitor id).in_updating ≡ true
      → update alive stateless handler (suc fuel) s id status ≡ thrown
  unfolding update
  busy-thrown fuel s id status b = if-true _ _ b

  first_listener-thrown :
      (upd : Monitors → ℕ → ℕ → Result) (id p q l status : ℕ) (ls : List ℕ) (cs : List (ℕ × Call))
      (t : Monitors)
      → alive l ≡ true
      → handler l id p q ≡ (id, update_call status) ∷ cs
      → upd t id status ≡ thrown
      → listeners_loop alive stateless handler upd id p q (l ∷ ls) t ≡ thrown
  unfolding listeners_loop calls_loop
  first_listener-thrown upd id p q l status ls cs t a h e =
      if-true _ _ a
      ∙ ap
          (λ x.
            and_then (calls_loop alive stateless handler upd x t)
              (listeners_loop alive stateless handler upd id p q ls))
          h
      ∙ ap
          (λ r.
            and_then (and_then r (λ u. calls_loop alive stateless handler upd cs u))
              (listeners_loop alive stateless handler upd id p q ls))
          e

  -- `update` throws when the first call that the handler of the first listener makes is an update of
  -- the monitor that it listens to. The listener exists, and the monitor was in no update.
  pub update_circular :
      (fuel : ℕ) (s : Monitors) (id status l again : ℕ) (ls : List ℕ) (cs : List (ℕ × Call))
      → (s.monitor id).in_updating ≡ false
      → (s.monitor id).listeners ≡ l ∷ ls
      → alive l ≡ true
      → handler l id (s.monitor id).status (visible (s.monitor id) status)
        ≡ (id, update_call again) ∷ cs
      → update alive stateless handler (suc (suc fuel)) s id status ≡ thrown
  unfolding update
  update_circular fuel s id status l again ls cs b k a h =
      let m = s.monitor id in
      let t = begins alive stateless handler s id status in
      let upd = update alive stateless handler (suc fuel) in
      let busy =
        (busy-thrown fuel t id again (ap (λ x. x.in_updating) (put-here id (begun m status) s))) in
      if-false _ _ b
      ∙ ap
          (λ x.
            and_then (listeners_loop alive stateless handler upd id m.status (visible m status) x t)
              (λ u. done (put id (ended alive (u.monitor id) (visible m status)) u)))
          k
      ∙ ap (λ r. and_then r (λ u. done (put id (ended alive (u.monitor id) (visible m status)) u)))
          (first_listener-thrown upd id m.status (visible m status) l again ls cs t a h busy)
