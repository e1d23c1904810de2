-- ===== src/Mlpl/ParsableString/Checker.antt =====
-- `SeparatorChecker` and its two subclasses in server/mlpl/src/ParsableString.cc. The virtual
-- methods that the parser calls are a record of functions on the object's state.
use hatohol.Base.{
  ℕ, ◌-◌, ◌%◌, ◌≤◌, ◌<◌, ◌≡◌, ◌≢◌, refl, Bool, true, false, not, ◌||◌, Option, none, some, [], ◌∷◌,
  arith, ltb, ◌==◌, if◌then◌else◌, Bytes, contains, All,
}
use hatohol.Base.Int.{ℤ, pos, negsuc}

-- A `bool [ARRAY_SIZE]`.
abbrev pub SeparatorArray : Type 0
SeparatorArray = ℕ → Bool

-- What `genericParse` calls. A result beside a state is what the method returns.
pub record CheckerOps {ℓ} (S : Type ℓ) : Type ℓ where
  pub is_separator : ℕ → S → Bool × S
  pub notify_found : S → S
  pub notify_finish : ℕ → S → S
  pub notify_passed_on_separator : ℕ → S → S

-- A char of 0x80 or more is negative as an `int`.
abbrev pub index_of : ℕ → ℤ
index_of c = if ltb c 0x80 then pos c else negsuc (0xff - c)

-- `m_separatorArray[i] = true`. An index below 0 lies outside the array: what is written there is
-- not described, and the array stays as it is.
abbrev pub mark : ℤ → SeparatorArray → SeparatorArray
mark (pos n) array i = if i == n then true else array i
mark (negsuc n) array i = array i

-- The loop over `separators`, up to the NUL, in the constructor and in `addSeparator`.
mark_separators : SeparatorArray → Bytes → SeparatorArray
mark_separators array [] = array
mark_separators array (c ∷ p) =
    let rest = mark_separators (mark (index_of c) array) p in if c == 0 then array else rest

unfoldable pub make_array : Bytes → SeparatorArray
unfolding mark_separators
make_array separators = mark_separators (λ _. false) separators

-- A checker points to its array, which the alternative's owner may share. The arrays stand in a
-- store.
abbrev pub Arrays : Type 0
Arrays = ℕ → SeparatorArray

pub record SeparatorChecker : Type 0 where
  pub separator_array : ℕ
  pub saved_array_for_alternative : Option ℕ
  pub allow_alternative : Bool

-- The char as an unsigned index.
unfoldable pub is_separator_in : SeparatorArray → ℕ → Bool
is_separator_in array c = array (c % 0x100)

unfoldable pub is_separator : Arrays → SeparatorChecker → ℕ → Bool
unfolding is_separator_in
is_separator arrays k c = is_separator_in (arrays k.separator_array) c

unfoldable pub set_alternative : SeparatorChecker → SeparatorChecker → SeparatorChecker
set_alternative k other =
    let saved : SeparatorChecker = elim k.saved_array_for_alternative [
      | none ↦ record k { saved_array_for_alternative = some k.separator_array }
      | some _ ↦ k
    ] in
    if not k.allow_alternative then k else record saved { separator_array = other.separator_array }

unfoldable pub unset_alternative : SeparatorChecker → SeparatorChecker
unset_alternative k = elim k.saved_array_for_alternative [
  | none ↦ k
  | some saved ↦ record k { separator_array = saved; saved_array_for_alternative = none }
]

unfoldable pub add_separator : Arrays → SeparatorChecker → Bytes → Arrays
unfolding mark_separators
add_separator arrays k separators i =
    if i == k.separator_array then mark_separators (arrays i) separators else arrays i

-- The separators for which every write lies in the array.
abbrev pub IsAscii : Bytes → Type 0
IsAscii = All (λ c. (c ≢ 0) × (c < 0x80))

mark_separators-contains :
    (array : SeparatorArray) (cs : Bytes) (i : ℕ)
    → IsAscii cs
    → mark_separators array cs i ≡ (contains cs i || array i)
unfolding mark_separators
mark_separators-contains array [] i h = refl
mark_separators-contains array (c ∷ cs) i h =
    let inside : index_of c ≡ pos c = ground (arith, h.0) in
    let nonzero : (c == 0) ≡ false = ground (arith, h.0) in
    rw (nonzero, inside) (ground (arith, mark_separators-contains (mark (pos c) array) cs i h.1))

pub make_array-contains : (cs : Bytes) (i : ℕ) → IsAscii cs → make_array cs i ≡ contains cs i
unfolding make_array
make_array-contains cs i h = ground (arith, mark_separators-contains (λ _. false) cs i h)

-- A char of 0x80 or more never separates, although it is given as a separator.
mark_separators-negative :
    (array : SeparatorArray) (cs : Bytes) (i : ℕ) → 0x80 ≤ i → mark_separators array cs i ≡ array i
unfolding mark_separators
mark_separators-negative array [] i h = refl
mark_separators-negative array (c ∷ cs) i h =
    ground (arith, mark_separators-negative (mark (index_of c) array) cs i h)

-- Between `setAlternative` (also twice) and `unsetAlternative` a checker that allows it separates
-- as its last alternative does, and one that does not allow it as before; afterwards the checker
-- is what it was. It has no alternative at the start.
set_alternative-unset_alternative :
    (arrays : Arrays) (k a b : SeparatorChecker) (c : ℕ)
    → k.saved_array_for_alternative ≡ none
    → (is_separator arrays (set_alternative (set_alternative k a) b) c
        ≡ is_separator arrays (if k.allow_alternative then b else k) c)
      × (unset_alternative (set_alternative (set_alternative k a) b) ≡ k)
      × (unset_alternative (set_alternative k a) ≡ k)
unfolding set_alternative unset_alternative is_separator
set_alternative-unset_alternative arrays k a b c e = (ground arith, ground arith, ground arith)

-- ASCII separators that are added to a checker with an alternative, which it allows, go to the
-- alternative's array: it then separates by them as well. The char that is asked about is a byte.
pub add_separator-set_alternative :
    (arrays : Arrays) (k other : SeparatorChecker) (separators : Bytes) (c : ℕ)
    → k.allow_alternative ≡ true
    → IsAscii separators
    → c < 0x100
    → is_separator (add_separator arrays (set_alternative k other) separators) other c
      ≡ (contains separators c || is_separator arrays other c)
unfolding set_alternative is_separator add_separator
add_separator-set_alternative arrays k other separators c allow ascii h =
    ground
      (arith, mark_separators-contains (arrays other.separator_array) separators (c % 0x100) ascii)
