-- ===== src/Server/IncidentSender/Retries.antt =====
-- What `trySend` does for one job.
use hatohol.Base.{
  ℕ, zero, suc, ◌+◌, ◌≤◌, ◌<◌, ◌≡◌, refl, subst, Bool, true, false, not, Option, none, some, List,
  [], ◌∷◌, ◌++◌, arith, leb, ◌==◌, if◌then◌else◌,
}
use package.hatohol.Server.IncidentSender.{
  ok, not_implemented, failed_to_send_incident, JobStatus, job_queued, job_started,
  job_waiting_retry, job_retrying, job_succeeded, job_failed, IncidentInfo, Job, Entry, notified,
  sent, Sender, Request, Round, Attempt, left, retried, notify_status, requests, call_of,
}
use package.hatohol.Server.IncidentSender.Sending.{
  answered, fill, send_to, send, after_sleep, after_send, attempt, retry_loop,
}
use package.hatohol.Server.IncidentSender.Keeps.{
  is_queued, is_started, is_ended, Keeps, Keeps-refl, Keeps-trans, put_entry-Keeps, requests-Keeps,
  write-Keeps, own-append, Adds, Adds-refl, Adds-trans, put_entry-Adds, requests-Adds,
}

module _ {E : Type 0} where
  abbrev pub waiting : Job E → Entry E
  waiting job = notified job job_waiting_retry (call_of job job_waiting_retry)

  abbrev pub retrying : Job E → Entry E
  retrying job = notified job job_retrying (call_of job job_retrying)

-- What the thread does from attempt `i` up to the one whose answer is the result. Only an exit that is
-- requested can end the attempts below the limit that fail to send.
pub data Tried {E : Type 0} (job : Job E) (limit : ℕ) (exited : Bool)
    : ℕ → ℕ → List (Entry E) → Type 0 where
  stops :
      {i r : ℕ}
      → i ≤ limit
      → (r ≡ failed_to_send_incident → i < limit → exited ≡ true)
      → Tried job limit exited i r (sent job r ∷ [])
  interrupted :
      {i r : ℕ}
      → i < limit
      → exited ≡ true
      → r ≡ failed_to_send_incident
      → Tried job limit exited i r (sent job r ∷ waiting job ∷ [])
  retries :
      {i q r : ℕ} {es : List (Entry E)}
      → i < limit
      → q ≡ failed_to_send_incident
      → Tried job limit exited (i + 1) r es
      → Tried job limit exited i r (sent job q ∷ waiting job ∷ retrying job ∷ es)

module _ {E : Type 0} (blank : IncidentInfo) (job : Job E) where
  fill-Keeps : (p : Option ℕ) (info : IncidentInfo) (s : Sender E) → Keeps s (fill p info s)
  fill-Keeps none info s = Keeps-refl s
  fill-Keeps (some p) info s = write-Keeps p info s

  fill-Adds : (p : Option ℕ) (info : IncidentInfo) (s : Sender E) → Adds [] s (fill p info s)
  fill-Adds none info s = Adds-refl s
  fill-Adds (some p) info s = Adds-refl s

  abbrev pub Does : List (Entry E) → Sender E → Sender E → Type 0
  Does es s t = Adds es s t × Keeps s t

  Does-trans :
      (es fs : List (Entry E)) (s t u : Sender E) → Does es s t → Does fs t u → Does (es ++ fs) s u
  Does-trans es fs s t u (p, k) (q, l) = (Adds-trans es fs s t u p q, Keeps-trans k l)

  answered-Does : (err : ℕ) (s : Sender E) → Does (sent job err ∷ []) s (answered job err s).1
  answered-Does err s = (
    own-append s.trace (sent job err ∷ []),
    Keeps-trans {t = record s { last_result = some err }}
        (record {
          started_kept = refl;
          ended_kept = refl;
          limit_kept = refl;
          record_kept = refl;
          exit_kept = λ h. h;
          order_kept = λ h. h;
          count_kept = λ h. h;
        })
        (put_entry-Keeps (sent job err) (record s { last_result = some err }) (refl, refl, refl)),
  )

  requests-Does : (rs : List (Request E)) (s : Sender E) → Does [] s (requests blank rs s)
  requests-Does rs s = (requests-Adds blank rs s, requests-Keeps blank rs s)

  send_to-Does :
      (e : Option E) (p : Option ℕ) (r : Round E) (s : Sender E)
      → Does (sent job (send_to blank e p r job s).0 ∷ []) s (send_to blank e p r job s).1
  send_to-Does (some e) p r s =
      let t : Sender E = requests blank r.during_send s in
      let u : Sender E = fill p r.filled t in
      Does-trans [] (sent job r.answer ∷ []) s u (answered job r.answer u).1
        (Does-trans [] [] s t u (requests-Does r.during_send s)
          (fill-Adds p r.filled t, fill-Keeps p r.filled t))
        (answered-Does r.answer u)
  send_to-Does none (some p) r s =
      let t : Sender E = requests blank r.during_send s in
      Does-trans [] (sent job r.answer ∷ []) s t (answered job r.answer t).1
        (requests-Does r.during_send s) (answered-Does r.answer t)
  send_to-Does none none r s = answered-Does not_implemented s

  send-Does :
      (r : Round E) (s : Sender E)
      → Does (sent job (send blank r job s).0 ∷ []) s (send blank r job s).1
  unfolding send
  send-Does r s = send_to-Does job.event_info job.incident_info r s

  notify-Does :
      (status : JobStatus) (s : Sender E)
      → is_queued status ≡ false
      → is_started status ≡ false
      → is_ended status ≡ false
      → Does (notified job status (call_of job status) ∷ []) s (notify_status job status s)
  notify-Does job_queued s q b d = absurd (cc)
  notify-Does job_started s q b d = absurd (cc)
  notify-Does job_succeeded s q b d = absurd (cc)
  notify-Does job_failed s q b d = absurd (cc)
  notify-Does job_waiting_retry s q b d =
      (put_entry-Adds (waiting job) s, put_entry-Keeps (waiting job) s (refl, refl, refl))
  notify-Does job_retrying s q b d =
      (put_entry-Adds (retrying job) s, put_entry-Keeps (retrying job) s (refl, refl, refl))

  -- An attempt's result, from the state `s`.
  abbrev Tells : ℕ → Sender E → Attempt E → Type 0
  Tells i s (left r t) =
      (es : List (Entry E)) × Tried job s.retry_limit t.exit_requested i r es × Does es s t
  Tells i s (retried r t) =
      (q : ℕ) × (q ≡ failed_to_send_incident)
      × (i < s.retry_limit)
      × Does (sent job q ∷ waiting job ∷ retrying job ∷ []) s t

  if-Tells :
      (i : ℕ) (s : Sender E) (b : Bool) (x y : Attempt E)
      → (b ≡ true → Tells i s x)
      → (b ≡ false → Tells i s y)
      → Tells i s (if b then x else y)
  if-Tells i s true x y f g = f refl
  if-Tells i s false x y f g = g refl

  after_sleep-Tells :
      (i r : ℕ) (s t : Sender E)
      → i < s.retry_limit
      → r ≡ failed_to_send_incident
      → Does (sent job r ∷ waiting job ∷ []) s t
      → Tells i s (after_sleep job r t)
  unfolding after_sleep
  after_sleep-Tells i r s t l f d =
      if-Tells i s t.exit_requested (left r t) (retried r (notify_status job job_retrying t))
        (λ e. (sent job r ∷ waiting job ∷ [], interrupted l e f, d))
        (λ _. (
          r,
          f,
          l,
          Does-trans (sent job r ∷ waiting job ∷ []) (retrying job ∷ []) s t
              (notify_status job job_retrying t) d (notify-Does job_retrying t refl refl refl),
        ))

  after_send-Tells :
      (r : Round E) (i err : ℕ) (s t : Sender E)
      → i ≤ s.retry_limit
      → Does (sent job err ∷ []) s t
      → Tells i s (after_send blank r job i err t)
  unfolding after_send
  after_send-Tells r i err s t l d =
      let stop : (err ≡ failed_to_send_incident → i < s.retry_limit → t.exit_requested ≡ true)
          → Tells i s (left err t) =
        λ k. (sent job err ∷ [], stops l k, d) in
      let limit : t.retry_limit ≡ s.retry_limit = d.1.limit_kept in
      if-Tells i s (err == ok) _ _ (λ e. stop (λ f b. absurd (ground (arith, e, f))))
        λ _.
          if-Tells i s (not (err == failed_to_send_incident)) _ _
            (λ e. stop (λ f b. absurd (ground (arith, e, f))))
            λ f.
              if-Tells i s (i == t.retry_limit) _ _
                (λ e. stop (λ _ b. absurd (ground (arith, e, b, limit))))
                λ n.
                  if-Tells i s t.exit_requested _ _ (λ e. stop (λ _ _. e))
                    λ _.
                      let u : Sender E = notify_status job job_waiting_retry t in
                      let v : Sender E = requests blank r.during_sleep u in
                      after_sleep-Tells i err s v (ground (arith, l, n, limit)) (ground (arith, f))
                        (Does-trans (sent job err ∷ waiting job ∷ []) [] s u v
                          (Does-trans (sent job err ∷ []) (waiting job ∷ []) s t u d
                            (notify-Does job_waiting_retry t refl refl refl))
                          (requests-Does r.during_sleep u))

  attempt-Tells :
      (r : Round E) (i : ℕ) (s : Sender E) → i ≤ s.retry_limit → Tells i s (attempt blank r job i s)
  unfolding attempt
  attempt-Tells r i s l =
      after_send-Tells r i (send blank r job s).0 s (send blank r job s).1 l (send-Does r s)

  abbrev pub Looped : ℕ → Sender E → Option (ℕ × Sender E) → Type 0
  Looped i s o =
      (r : ℕ) × (t : Sender E) × (es : List (Entry E)) × (o ≡ some (r, t))
      × Tried job s.retry_limit t.exit_requested i r es
      × Does es s t

  le→leb : (a b : ℕ) → a ≤ b → leb a b ≡ true
  le→leb a b h = ground arith

  if-Looped :
      (i : ℕ) (s : Sender E) (b : Bool) (x y : Option (ℕ × Sender E))
      → b ≡ true
      → Looped i s x
      → Looped i s (if b then x else y)
  if-Looped i s true x y h l = l
  if-Looped i s false x y h l = absurd (cc)

  -- `rest` is the loop behind an attempt.
  proceed :
      (i : ℕ) (s : Sender E) (a : Attempt E) (rest : ℕ → Sender E → Option (ℕ × Sender E))
      → Tells i s a
      → ((q : ℕ) (t : Sender E)
          → t.retry_limit ≡ s.retry_limit
          → i < s.retry_limit
          → Looped (i + 1) t (rest q t))
      → Looped i s (elim a [ left r t ↦ some (r, t) | retried r t ↦ rest r t ])
  proceed i s (left r t) rest (es, tried, d) f = (r, t, es, refl, tried, d)
  proceed i s (retried p t) rest (q, e, l, d) f =
      let (r, u, es, returned, tried, added) = f p t d.1.limit_kept l in
      (
        r,
        u,
        sent job q ∷ waiting job ∷ retrying job ∷ es,
        returned,
        retries l e (subst (λ m. Tried job m u.exit_requested (i + 1) r es) d.1.limit_kept tried),
        Does-trans (sent job q ∷ waiting job ∷ retrying job ∷ []) es s t u d added,
      )

  pub retry_loop-Looped :
      (round : ℕ → Round E) (fuel i result : ℕ) (s : Sender E)
      → i ≤ s.retry_limit
      → s.retry_limit < fuel + i
      → Looped i s (retry_loop blank round fuel job i result s)
  unfolding retry_loop
  retry_loop-Looped round zero i result s l h = absurd (omega arith)
  retry_loop-Looped round (suc fuel) i result s l h =
      let go : Looped i s (elim (attempt blank (round i) job i s) [
        | left r t ↦ some (r, t)
        | retried r t ↦ retry_loop blank round fuel job (i + 1) r t
      ]) =
        proceed i s (attempt blank (round i) job i s)
          (λ r t. retry_loop blank round fuel job (i + 1) r t) (attempt-Tells (round i) i s l)
          (λ q t e b. retry_loop-Looped round fuel (i + 1) q t (omega arith) (omega arith)) in
      if-Looped i s (leb i s.retry_limit) _ _ (le→leb i s.retry_limit l) go
