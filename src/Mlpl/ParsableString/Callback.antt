-- ===== src/Mlpl/ParsableString/Callback.antt =====
-- `SeparatorCheckerWithCallback`. Every registered argument points into one object `A`, which the
-- callbacks change. A char of 0x80 or more, whose index lies outside the arrays, has no callback.
use hatohol.Base.{ℕ, Bool, true, false, not, Option, none, some, ◌==◌, if◌then◌else◌, Bytes}
use hatohol.Mlpl.ParsableString.Checker.{SeparatorArray, CheckerOps, is_separator_in, make_array}

pub record SeparatorCheckerWithCallback (A : Type 0) : Type 0 where
  pub separator_array : SeparatorArray
  pub callback_array : ℕ → Option (ℕ → A → A)
  pub arg : A

module _ {A : Type 0} where
  unfoldable pub init : Bytes → A → SeparatorCheckerWithCallback A
  unfolding make_array
  init separators arg = record {
    separator_array = make_array separators;
    callback_array = λ _. none;
    arg = arg;
  }

  unfoldable pub set_callback :
      ℕ → (ℕ → A → A) → SeparatorCheckerWithCallback A → Bool × SeparatorCheckerWithCallback A
  set_callback separator func k = if not (k.separator_array separator) then (false, k) else (
    true,
    record k { callback_array = λ i. if i == separator then some func else k.callback_array i },
  )

  unfoldable pub notify_passed_on_separator :
      ℕ → SeparatorCheckerWithCallback A → SeparatorCheckerWithCallback A
  notify_passed_on_separator c k = elim (k.callback_array c) [
    | none ↦ k
    | some func ↦ record k { arg = func c k.arg }
  ]

  unfoldable pub callback_ops : CheckerOps (SeparatorCheckerWithCallback A)
  unfolding notify_passed_on_separator is_separator_in
  callback_ops = record {
    is_separator = λ c k. (is_separator_in k.separator_array c, k);
    notify_found = λ k. k;
    notify_finish = λ len k. k;
    notify_passed_on_separator = notify_passed_on_separator;
  }
