-- ===== src/Mlpl/ParsableString/Counter.antt =====
-- `SeparatorCheckerWithCounter`. The counters are not bounded. A char of 0x80 or more, whose index
-- lies outside the arrays, is never counted.
use hatohol.Base.{
  ℕ, ◌+◌, ◌<◌, ◌≡◌, ◌≢◌, Bool, true, false, List, [], ◌∷◌, ◌++◌, arith, ◌==◌, if◌then◌else◌, Bytes,
  contains, All,
}
use hatohol.Mlpl.ParsableString.Checker.{
  SeparatorArray, CheckerOps, is_separator_in, make_array, IsAscii, make_array-contains,
}

pub record SeparatorCheckerWithCounter : Type 0 where
  pub separator_array : SeparatorArray
  pub counter : ℕ → ℕ
  pub last_separator : ℕ
  pub after_found : Bool
  pub forward_separators : Bytes

unfoldable pub reset_counter : SeparatorCheckerWithCounter → SeparatorCheckerWithCounter
reset_counter k = record k { counter = λ _. 0; forward_separators = [] }

unfoldable pub init : Bytes → SeparatorCheckerWithCounter
unfolding reset_counter make_array
init separators = reset_counter (record {
  separator_array = make_array separators;
  counter = λ _. 0;
  last_separator = 0;
  after_found = false;
  forward_separators = [];
})

unfoldable pub get_count : SeparatorCheckerWithCounter → ℕ → ℕ
get_count k c = k.counter c

separator_found : SeparatorCheckerWithCounter → SeparatorCheckerWithCounter
separator_found k = record k {
  forward_separators = k.forward_separators ++ k.last_separator ∷ [];
  counter = λ i. if i == k.last_separator then k.counter i + 1 else k.counter i;
}

unfoldable pub is_separator : ℕ → SeparatorCheckerWithCounter → Bool × SeparatorCheckerWithCounter
unfolding separator_found is_separator_in
is_separator c k =
    let cleared =
      if k.after_found then record k { forward_separators = []; after_found = false } else k in
    if is_separator_in k.separator_array c
    then (true, record (separator_found cleared) { last_separator = c })
    else (false, k)

unfoldable pub notify_found : SeparatorCheckerWithCounter → SeparatorCheckerWithCounter
notify_found k = record k { after_found = true }

unfoldable pub notify_finish : ℕ → SeparatorCheckerWithCounter → SeparatorCheckerWithCounter
unfolding separator_found
notify_finish len k = record (separator_found k) { last_separator = 0 }

unfoldable pub counter_ops : CheckerOps SeparatorCheckerWithCounter
unfolding is_separator notify_found notify_finish
counter_ops = record {
  is_separator = is_separator;
  notify_found = notify_found;
  notify_finish = notify_finish;
  notify_passed_on_separator = λ c k. k;
}

-- What the parser does with a checker, seen from the checker.
pub data Event : Type 0 where
  ask : ℕ → Event
  found : Event

pub handle : Event → SeparatorCheckerWithCounter → SeparatorCheckerWithCounter
handle (ask c) k = (is_separator c k).1
handle found k = notify_found k

pub handle_all : List Event → SeparatorCheckerWithCounter → SeparatorCheckerWithCounter
handle_all [] k = k
handle_all (e ∷ es) k = handle_all es (handle e k)

-- How often the checker was asked about `c`.
pub asked : ℕ → List Event → ℕ
asked c [] = 0
asked c (ask d ∷ es) = (if d == c then 1 else 0) + asked c es
asked c (found ∷ es) = asked c es

-- Every char that the checker is asked about is a byte.
abbrev pub IsByteEvent : Event → Type 0
IsByteEvent (ask c) = c < 0x100
IsByteEvent found = Unit

abbrev pending : SeparatorCheckerWithCounter → ℕ → ℕ
pending k c = if k.last_separator == c then 1 else 0

handle_all-count :
    (es : List Event) (k : SeparatorCheckerWithCounter) (c : ℕ)
    → All IsByteEvent es
    → (handle_all es k).counter c + pending (handle_all es k) c
      ≡ k.counter c + pending k c + (if k.separator_array c then asked c es else 0)
unfolding handle_all handle asked is_separator notify_found
handle_all-count [] k c g = ground arith
handle_all-count (ask d ∷ es) k c g = ground (arith, handle_all-count es (is_separator d k).1 c g.1)
handle_all-count (found ∷ es) k c g = ground (arith, handle_all-count es (notify_found k) c g.1)

-- When the parse has finished, the count of an ASCII char other than NUL is how often the checker
-- was asked about it if it is a separator, and 0 if it is none. The separators are ASCII.
pub get_count-notify_finish :
    (separators : Bytes) (es : List Event) (len c : ℕ)
    → IsAscii separators
    → All IsByteEvent es
    → c ≢ 0
    → c < 0x80
    → get_count (notify_finish len (handle_all es (init separators))) c
      ≡ (if contains separators c then asked c es else 0)
unfolding get_count notify_finish init
get_count-notify_finish separators es len c ascii g n h =
    ground
      (arith, handle_all-count es (init separators) c g, make_array-contains separators c ascii)
