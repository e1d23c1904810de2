-- ===== src/Server/SessionManager/Local.antt =====
-- What each step does to the session at one address `p` and to one ID `k` of the map.
use hatohol.Base.{
  ℕ, suc, ◌-◌, ◌≤◌, ◌<◌, ◌≡◌, refl, ap, subst, ◌∙◌, Bool, true, false, Option, none, some, arith,
  ltb, ◌==◌, if◌then◌else◌, if-true, if-false, Bytes, eq_bytes, eq_bytes_refl,
}
use package.hatohol.Server.SessionManager.{
  Session, Sessions, ◌>>=◌, put, set_id, set_handles, change, unreffed, unref, assert_used,
  stop_timer, cancel_timer, invalid_event_id,
}

==_refl : (n : ℕ) → (n == n) ≡ true
==_refl n = ground arith

-- `cancelTimer` drops the timer with its reference.
abbrev pub cancelled : Session → Session
cancelled s =
    if s.timer_id == invalid_event_id
    then s
    else record s { timer_id = invalid_event_id; used_count = s.used_count - 1 }

abbrev pub timed : ℕ → Session → Session
timed source s =
    if s.timeout == 0 then s else record s { timer_id = source; used_count = suc s.used_count }

abbrev pub restarted : ℕ → ℕ → Session → Session
restarted source now s = record (timed source (cancelled s)) { last_access_time = now }

pub restarted-id : (source now : ℕ) (s : Session) → (restarted source now s).id ≡ s.id
restarted-id source now s = ground arith

module _ (p : ℕ) (k : Bytes) where
  -- At `p` stands `o`, `n` smart pointers point to it, and `k` is mapped to `v`.
  pub record View (o : Option Session) (n : ℕ) (v : Option ℕ) (m : Sessions) : Type 0 where
    pub stands : m.session p ≡ o
    pub held : m.handles p ≡ n
    pub mapped : m.session_id_map k ≡ v

  -- Nothing else changes.
  pub record Frame (m t : Sessions) : Type 0 where
    pub other_session : (q : ℕ) → (p == q) ≡ false → t.session q ≡ m.session q
    pub other_handles : (q : ℕ) → (p == q) ≡ false → t.handles q ≡ m.handles q
    pub other_id : (id : Bytes) → eq_bytes k id ≡ false → t.session_id_map id ≡ m.session_id_map id

  pub Frame-trans : {m t u : Sessions} → Frame m t → Frame t u → Frame m u
  Frame-trans f g = record {
    other_session = λ q h. g.other_session q h ∙ f.other_session q h;
    other_handles = λ q h. g.other_handles q h ∙ f.other_handles q h;
    other_id = λ id h. g.other_id id h ∙ f.other_id id h;
  }

  Frame-refl : (m : Sessions) → Frame m m
  Frame-refl m = record {
    other_session = λ q h. refl;
    other_handles = λ q h. refl;
    other_id = λ id h. refl;
  }

  -- A step from `m` returns, and leaves that view.
  abbrev pub Gives : Option Session → ℕ → Option ℕ → Sessions → Option Sessions → Type 0
  Gives o n v m r = (t : Sessions) × (r ≡ some t) × View o n v t × Frame m t

  pub Gives-some :
      {o : Option Session} {n : ℕ} {v : Option ℕ} (m : Sessions)
      → View o n v m
      → Gives o n v m (some m)
  Gives-some m w = (m, refl, w, Frame-refl m)

  pub Gives-bind :
      {o o' : Option Session} {n n' : ℕ} {v v' : Option ℕ} (m : Sessions) (r : Option Sessions)
      (f : Sessions → Option Sessions)
      → Gives o n v m r
      → ((t : Sessions) → View o n v t → Gives o' n' v' t (f t))
      → Gives o' n' v' m (r >>= f)
  Gives-bind m r f (t, e, w, g) h =
      let (u, e', w', g') = h t w in (u, ap (λ x. x >>= f) e ∙ e', w', Frame-trans g g')

  -- What a step does with the session that stands at `p`.
  pub Gives-session :
      {s : Session} {n n' : ℕ} {o' : Option Session} {v v' : Option ℕ} (m : Sessions)
      (f : Session → Option Sessions)
      → View (some s) n v m
      → Gives o' n' v' m (f s)
      → Gives o' n' v' m (m.session p >>= f)
  Gives-session m f w (t, e, w', g) = (t, ap (λ o. o >>= f) w.stands ∙ e, w', g)

  pub put-Gives :
      {o : Option Session} {n : ℕ} {v : Option ℕ} (o' : Option Session) (m : Sessions)
      → View o n v m
      → Gives o' n v m (some (put p o' m))
  put-Gives o' m w = (
    put p o' m,
    refl,
    record { stands = if-true _ _ (==_refl p); held = w.held; mapped = w.mapped },
    record {
      other_session = λ q h. if-false _ _ h;
      other_handles = λ q h. refl;
      other_id = λ id h. refl;
    },
  )

  pub set_id-Gives :
      {o : Option Session} {n : ℕ} {v : Option ℕ} (v' : Option ℕ) (m : Sessions)
      → View o n v m
      → Gives o n v' m (some (set_id k v' m))
  set_id-Gives v' m w = (
    set_id k v' m,
    refl,
    record { stands = w.stands; held = w.held; mapped = if-true _ _ (eq_bytes_refl k) },
    record {
      other_session = λ q h. refl;
      other_handles = λ q h. refl;
      other_id = λ id h. if-false _ _ h;
    },
  )

  pub set_handles-Gives :
      {o : Option Session} {n : ℕ} {v : Option ℕ} (n' : ℕ) (m : Sessions)
      → View o n v m
      → Gives o n' v m (some (set_handles p n' m))
  set_handles-Gives n' m w = (
    set_handles p n' m,
    refl,
    record { stands = w.stands; held = if-true _ _ (==_refl p); mapped = w.mapped },
    record {
      other_session = λ q h. refl;
      other_handles = λ q h. if-false _ _ h;
      other_id = λ id h. refl;
    },
  )

  pub change-Gives :
      {s : Session} {n : ℕ} {v : Option ℕ} (f : Session → Session) (m : Sessions)
      → View (some s) n v m
      → Gives (some (f s)) n v m (change p f m)
  change-Gives {s} f m w =
      Gives-session m (λ s. some (put p (some (f s)) m)) w (put-Gives (some (f s)) m w)

  if-Gives :
      {o : Option Session} {n : ℕ} {v : Option ℕ} (b : Bool) (m : Sessions) (x y : Option Sessions)
      → b ≡ false
      → Gives o n v m y
      → Gives o n v m (if b then x else y)
  if-Gives true m x y e g = absurd (cc)
  if-Gives false m x y e g = g

  pub unref-Gives :
      {s : Session} {n : ℕ} {v : Option ℕ} (m : Sessions)
      → 0 < s.used_count
      → View (some s) n v m
      → Gives (unreffed s) n v m (unref p m)
  unfolding unref
  unref-Gives {s} m l w =
      Gives-session m (λ s. if s.used_count == 0 then none else some (put p (unreffed s) m)) w
        (if-Gives (s.used_count == 0) m none (some (put p (unreffed s) m)) (ground arith)
          (put-Gives (unreffed s) m w))

  cancel-Gives :
      (b : Bool) {s : Session} {n : ℕ} {v : Option ℕ} (m : Sessions)
      → (b ≡ false → 2 ≤ s.used_count)
      → View (some s) n v m
      → Gives
          (some (
            if b
            then s
            else record s { timer_id = invalid_event_id; used_count = s.used_count - 1 }))
          n
          v
          m
          (if b then some m else change p stop_timer m >>= assert_used p >>= unref p)
  cancel-Gives true m l w = Gives-some m w
  cancel-Gives false {s} {n} {v} m l w =
      let two : 2 ≤ s.used_count = l refl in
      let left : unreffed (stop_timer s)
          ≡ some (record s { timer_id = invalid_event_id; used_count = s.used_count - 1 }) =
        if-false {b = s.used_count - 1 == 0} _ _ (ground (arith, two)) in
      subst (λ o. Gives o n v m (change p stop_timer m >>= assert_used p >>= unref p)) left
        (Gives-bind m (change p stop_timer m >>= assert_used p) (unref p)
          (Gives-bind m (change p stop_timer m) (assert_used p) (change-Gives stop_timer m w)
            (λ t x.
              Gives-session t (λ s. if ltb s.used_count 2 then none else some t) x
                (if-Gives (ltb s.used_count 2) t none (some t) (ground (arith, two))
                  (Gives-some t x))))
          (λ t x. unref-Gives t (omega arith) x))

  pub cancel_timer-Gives :
      {s : Session} {n : ℕ} {v : Option ℕ} (m : Sessions)
      → ((s.timer_id == invalid_event_id) ≡ false → 2 ≤ s.used_count)
      → View (some s) n v m
      → Gives (some (cancelled s)) n v m (cancel_timer p m)
  unfolding cancel_timer
  cancel_timer-Gives {s} m l w =
      Gives-session m
        (λ s.
          if s.timer_id == invalid_event_id
          then some m
          else change p stop_timer m >>= assert_used p >>= unref p)
        w (cancel-Gives (s.timer_id == invalid_event_id) m l w)
