-- ===== src/Server/StatisticsCounter/Laws.antt =====
-- The two slots stay side by side, and each number counts what was added in its slot.
use hatohol.Base.{
  ℕ, ◌+◌, ◌%◌, ◌^◌, ◌<◌, ◌≡◌, refl, sym, ap, ◌∙◌, inl, inr, Bool, true, false, List, [], ◌∷◌, arith,
  if◌then◌else◌, Bool-cases, All,
}
use hatohol.Base.Int.{pos, pos_part, neg_part, ◌+ℤ◌, ltb_ℤ, +ℤ_parts}
use hatohol.Mlpl.SmartTime.{SmartTime, init_none, add, lt}
use hatohol.Mlpl.SmartTime.Laws.{IsNormal, nanos, add_lem, sub-add, comparisons}
use hatohol.Server.StatisticsCounter.{
  Slot, empty_slot, StatisticsCounter, initialize_slots, init, fixup_slots, add_number, get,
}

-- Times are normal and the interval is positive; the slots are side by side, each as long as the
-- interval, and the current one has not come to its end.
pub record IsValid (k : StatisticsCounter) : Type 0 where
  pub interval_normal : IsNormal k.interval
  pub interval_positive : ltb_ℤ (pos 0) (nanos k.interval) ≡ true
  pub start_normal : IsNormal k.curr_slot.start_time
  pub end_normal : IsNormal k.curr_slot.end_time
  pub adjacent : k.prev_slot.end_time ≡ k.curr_slot.start_time
  pub prev_full : k.prev_slot.end_time ≡ add k.prev_slot.start_time k.interval
  pub full : k.curr_slot_end_time ≡ add k.curr_slot.start_time k.interval
  pub ends_inside : lt k.curr_slot.end_time k.curr_slot_end_time ≡ true
  pub bounded : (k.prev_slot.number < 2 ^ 64) × (k.curr_slot.number < 2 ^ 64)

add-lt :
    (t interval : SmartTime)
    → IsNormal t
    → IsNormal interval
    → ltb_ℤ (pos 0) (nanos interval) ≡ true
    → lt t (add t interval) ≡ true
add-lt t d h g p =
    let (normal, sum) = add_lem t d h g in
    (comparisons t (add t d) h normal).3
    ∙ ground (arith, ap pos_part sum, ap neg_part sum, +ℤ_parts (nanos t) (nanos d))

initialize_slots-IsValid :
    (now : SmartTime) (k : StatisticsCounter)
    → IsNormal now
    → IsNormal k.interval
    → ltb_ℤ (pos 0) (nanos k.interval) ≡ true
    → IsValid (initialize_slots now k)
unfolding initialize_slots
initialize_slots-IsValid now k h g p = record {
  interval_normal = g;
  interval_positive = p;
  start_normal = h;
  end_normal = h;
  adjacent = refl;
  prev_full = sym (sub-add now k.interval h g);
  full = refl;
  ends_inside = add-lt now k.interval h g p;
  bounded = omega arith;
}

-- Bringing the slots up to date keeps the counter valid, whatever the clock shows.
pub fixup_slots-IsValid :
    (now : SmartTime) (k : StatisticsCounter)
    → IsNormal now
    → IsValid k
    → IsValid (fixup_slots now k)
unfolding fixup_slots
fixup_slots-IsValid now k h v = elim (Bool-cases (lt now k.curr_slot_end_time)) [
  | inl e ↦
      rw (e, fixup_slots)
        (record {
          interval_normal = v.interval_normal;
          interval_positive = v.interval_positive;
          start_normal = v.start_normal;
          end_normal = h;
          adjacent = v.adjacent;
          prev_full = v.prev_full;
          full = v.full;
          ends_inside = e;
          bounded = v.bounded;
        })
  | inr e ↦ elim (Bool-cases (lt now (add k.curr_slot_end_time k.interval))) [
    | inl e' ↦
        rw (e, e', fixup_slots)
          (record {
            interval_normal = v.interval_normal;
            interval_positive = v.interval_positive;
            start_normal =
                rw v.full
                  (add_lem k.curr_slot.start_time k.interval v.start_normal v.interval_normal).0;
            end_normal = h;
            adjacent = refl;
            prev_full = v.full;
            full = refl;
            ends_inside = e';
            bounded = omega (arith, v.bounded);
          })
    | inr e' ↦
        rw (e, e', fixup_slots)
          (initialize_slots-IsValid now k h v.interval_normal v.interval_positive)
  ]
]

add_number-IsValid :
    (now : SmartTime) (number : ℕ) (k : StatisticsCounter)
    → IsNormal now
    → IsValid k
    → IsValid (add_number now number k) × IsValid (get now k).0
unfolding add_number get
add_number-IsValid now number k h v =
    let w = fixup_slots-IsValid now k h v in
    (
      record {
        interval_normal = w.interval_normal;
        interval_positive = w.interval_positive;
        start_normal = w.start_normal;
        end_normal = w.end_normal;
        adjacent = w.adjacent;
        prev_full = w.prev_full;
        full = w.full;
        ends_inside = w.ends_inside;
        bounded = (w.bounded.0, omega arith);
      },
      w,
    )

-- The two public operations, each at a reading of the clock.
pub data Call : Type 0 where
  adds : ℕ → Call
  gets : Call

unfoldable pub run : StatisticsCounter → List (SmartTime × Call) → StatisticsCounter
run k [] = k
run k ((now, adds number) ∷ cs) = run (add_number now number k) cs
run k ((now, gets) ∷ cs) = run (get now k).0 cs

abbrev pub AllNormal : List (SmartTime × Call) → Type 0
AllNormal = All (λ c. IsNormal c.0)

run-IsValid :
    (k : StatisticsCounter) (cs : List (SmartTime × Call))
    → AllNormal cs
    → IsValid k
    → IsValid (run k cs)
unfolding run
run-IsValid k [] h v = v
run-IsValid k ((now, adds number) ∷ cs) h v =
    run-IsValid (add_number now number k) cs h.1 (add_number-IsValid now number k h.0 v).0
run-IsValid k ((now, gets) ∷ cs) h v =
    run-IsValid (get now k).0 cs h.1 (add_number-IsValid now 0 k h.0 v).1

init-IsValid :
    (now interval : SmartTime)
    → IsNormal now
    → IsNormal interval
    → ltb_ℤ (pos 0) (nanos interval) ≡ true
    → IsValid (init now interval)
unfolding init
init-IsValid now interval h g p =
    initialize_slots-IsValid now
      (record {
        interval = interval;
        prev_slot = empty_slot;
        curr_slot = empty_slot;
        curr_slot_end_time = init_none;
      })
      h g p

-- From a new counter with a positive interval, any history of `add` and `get`, at readings of the
-- clock in any order, keeps the two slots side by side and each as long as the interval, the
-- current one short of its end, and both numbers within 64 bits.
pub run-init-IsValid :
    (now interval : SmartTime) (cs : List (SmartTime × Call))
    → IsNormal now
    → IsNormal interval
    → ltb_ℤ (pos 0) (nanos interval) ≡ true
    → AllNormal cs
    → IsValid (run (init now interval) cs)
run-init-IsValid now interval cs h g p hs =
    run-IsValid (init now interval) cs hs (init-IsValid now interval h g p)

fixup_slots-end_time :
    (now : SmartTime) (k : StatisticsCounter) → (fixup_slots now k).curr_slot.end_time ≡ now
unfolding fixup_slots
fixup_slots-end_time now k = ground arith

fixup_slots-numbers :
    (now : SmartTime) (k : StatisticsCounter)
    → let next = add k.curr_slot_end_time k.interval in
      ((fixup_slots now k).curr_slot.number
        ≡ (if lt now k.curr_slot_end_time then k.curr_slot.number else 0))
      × ((fixup_slots now k).prev_slot.number ≡ (
          if lt now k.curr_slot_end_time
          then k.prev_slot.number
          else if lt now next
          then k.curr_slot.number
          else 0))
unfolding fixup_slots
fixup_slots-numbers now k = (ground arith, ground arith)

-- A second look at the same time changes no number.
get_again :
    (now : SmartTime) (k : StatisticsCounter)
    → lt now k.curr_slot_end_time ≡ true
    → ((get now k).1 ≡ k.prev_slot) × ((get now k).2.number ≡ k.curr_slot.number)
unfolding get fixup_slots
get_again now k e = (ground arith, ground arith)

add_number-numbers :
    (now : SmartTime) (number : ℕ) (k : StatisticsCounter)
    → ((add_number now number k).curr_slot.number
        ≡ ((fixup_slots now k).curr_slot.number + number) % 2 ^ 64)
      × ((add_number now number k).prev_slot ≡ (fixup_slots now k).prev_slot)
      × ((add_number now number k).curr_slot.end_time ≡ (fixup_slots now k).curr_slot.end_time)
unfolding add_number
add_number-numbers now number k = (refl, refl, refl)

lt-nanos : (t rhs : SmartTime) → IsNormal t → IsNormal rhs → lt t rhs ≡ ltb_ℤ (nanos t) (nanos rhs)
lt-nanos t rhs h g = (comparisons t rhs h g).3

-- What `get` reports right after an `add`, by the nanoseconds: within the current slot the number
-- grows, modulo 2 ^ 64; one interval later the current number becomes the previous one and
-- counting begins anew; later still the previous number is 0.
pub add_number-get :
    (now : SmartTime) (number : ℕ) (k : StatisticsCounter)
    → IsNormal now
    → IsValid k
    → number < 2 ^ 64
    → let t = nanos now in
      let end = nanos k.curr_slot_end_time in
      let r = get now (add_number now number k) in
      (r.2.number ≡ (if ltb_ℤ t end then (k.curr_slot.number + number) % 2 ^ 64 else number))
      × (r.1.number ≡ (
          if ltb_ℤ t end
          then k.prev_slot.number
          else if ltb_ℤ t (end +ℤ nanos k.interval)
          then k.curr_slot.number
          else 0))
add_number-get now number k h v b =
    let w = (add_number-IsValid now number k h v).0 in
    let end_normal : IsNormal k.curr_slot_end_time =
      rw v.full (add_lem k.curr_slot.start_time k.interval v.start_normal v.interval_normal).0 in
    let (next_normal, sum) = add_lem k.curr_slot_end_time k.interval end_normal v.interval_normal in
    let (curr, prev, ended) = add_number-numbers now number k in
    let (curr', prev') = fixup_slots-numbers now k in
    let inside : lt now (add_number now number k).curr_slot_end_time ≡ true =
      ap (λ t. lt t (add_number now number k).curr_slot_end_time)
        (sym (ended ∙ fixup_slots-end_time now k))
      ∙ w.ends_inside in
    let (again, again') = get_again now (add_number now number k) inside in
    let one = lt-nanos now k.curr_slot_end_time h end_normal in
    let two =
      lt-nanos now (add k.curr_slot_end_time k.interval) h next_normal
      ∙ ap (λ n. ltb_ℤ (nanos now) n) sum in
    (
      again'
          ∙ curr
          ∙ rw curr' (
              rw one (
                current (ltb_ℤ (nanos now) (nanos k.curr_slot_end_time)) k.curr_slot.number number
                  b)),
      ap (λ (s : Slot). s.number) (again ∙ prev) ∙ prev' ∙ rw (one, two),
    )
  where
    current :
        (test : Bool) (n m : ℕ)
        → m < 2 ^ 64
        → ((if test then n else 0) + m) % 2 ^ 64 ≡ (if test then (n + m) % 2 ^ 64 else m)
    current true n m h = refl
    current false n m h = omega arith
