-- ===== src/Server/StatisticsCounter.antt =====
-- server/src/StatisticsCounter.cc: a count for the current interval and one for the interval
-- before. The clock's reading is an argument of each operation, which runs under a lock.
pub mod Laws
use hatohol.Base.{ℕ, ◌+◌, ◌%◌, ◌^◌, if◌then◌else◌}
use hatohol.Mlpl.SmartTime.{SmartTime, add, sub, lt, init_none}

pub record Slot : Type 0 where
  pub start_time : SmartTime
  pub end_time : SmartTime
  pub number : ℕ

pub record StatisticsCounter : Type 0 where
  pub interval : SmartTime
  pub prev_slot : Slot
  pub curr_slot : Slot
  pub curr_slot_end_time : SmartTime

unfoldable pub initialize_slots : SmartTime → StatisticsCounter → StatisticsCounter
initialize_slots now k = record k {
  prev_slot = record { start_time = sub now k.interval; end_time = now; number = 0 };
  curr_slot = record { start_time = now; end_time = now; number = 0 };
  curr_slot_end_time = add now k.interval;
}

abbrev empty_slot : Slot
empty_slot = record { start_time = init_none; end_time = init_none; number = 0 }

unfoldable pub init : SmartTime → SmartTime → StatisticsCounter
unfolding initialize_slots
init now interval = initialize_slots now (record {
  interval = interval;
  prev_slot = empty_slot;
  curr_slot = empty_slot;
  curr_slot_end_time = init_none;
})

unfoldable pub fixup_slots : SmartTime → StatisticsCounter → StatisticsCounter
unfolding initialize_slots
fixup_slots now k =
    let next_end_time = add k.curr_slot_end_time k.interval in
    if lt now k.curr_slot_end_time
    then record k { curr_slot = record (k.curr_slot) { end_time = now } }
    else if lt now next_end_time
    then record k {
      prev_slot = record (k.curr_slot) { end_time = k.curr_slot_end_time };
      curr_slot = record { start_time = k.curr_slot_end_time; end_time = now; number = 0 };
      curr_slot_end_time = next_end_time;
    }
    else initialize_slots now k

-- A `uint64_t` sum.
unfoldable pub add_number : SmartTime → ℕ → StatisticsCounter → StatisticsCounter
unfolding fixup_slots
add_number now number k =
    let fixed = fixup_slots now k in
    let curr = fixed.curr_slot in
    record fixed { curr_slot = record curr { number = (curr.number + number) % 2 ^ 64 } }

-- The counter, the slot before and the current slot.
unfoldable pub get : SmartTime → StatisticsCounter → StatisticsCounter × Slot × Slot
unfolding fixup_slots
get now k = let fixed = fixup_slots now k in (fixed, fixed.prev_slot, fixed.curr_slot)
