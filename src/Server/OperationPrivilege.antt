-- ===== src/Server/OperationPrivilege.antt =====
-- server/src/OperationPrivilege.cc: the operations that a user may do, as the bits of a 64-bit word.
-- The user's stored flags are a parameter: what `getUserInfo` finds in the database.
use hatohol.Base.{
  ℕ, zero, suc, ◌+◌, ◌-◌, ◌*◌, ◌/◌, ◌%◌, ◌^◌, ◌≤◌, ◌<◌, ◌≡◌, refl, ap, ◌∙◌, inl, inr, Bool, true,
  false, not, ◌||◌, ◌&&◌, Option, none, some, arith, ◌==◌, if◌then◌else◌, Bool-cases,
}
use hatohol.Base.Int.{ℤ, pos, negsuc, eqb_ℤ}

-- The operators `|`, `&` and `~` on words of `w` bits, by the lowest bit and the rest.
abbrev pub bit : ℕ → ℕ → Bool
bit a zero = a % 2 == 1
bit a (suc i) = bit (a / 2) i

abbrev with_bit : Bool → ℕ → ℕ
with_bit b a = if b then 2 * a + 1 else 2 * a

unfoldable word_or : ℕ → ℕ → ℕ → ℕ
word_or zero a b = 0
word_or (suc w) a b = with_bit (a % 2 == 1 || b % 2 == 1) (word_or w (a / 2) (b / 2))

unfoldable word_and : ℕ → ℕ → ℕ → ℕ
word_and zero a b = 0
word_and (suc w) a b = with_bit (a % 2 == 1 && b % 2 == 1) (word_and w (a / 2) (b / 2))

unfoldable word_not : ℕ → ℕ → ℕ
word_not zero a = 0
word_not (suc w) a = with_bit (not (a % 2 == 1)) (word_not w (a / 2))

-- `NUM_OPPRVLG` is the number of the enumerators; a privilege is its number.
abbrev pub num_opprvlg : ℕ
num_opprvlg = 28

unfoldable pub make_flag : ℕ → ℕ
make_flag type = 2 ^ type

unfoldable pub add_flag : ℕ → ℕ → ℕ
unfolding word_or
add_flag flags type = word_or 64 flags (2 ^ type)

unfoldable pub remove_flag : ℕ → ℕ → ℕ
unfolding word_and word_not
remove_flag flags type = word_and 64 flags (word_not 64 (2 ^ type))

unfoldable pub has : ℕ → ℕ → Bool
unfolding word_and make_flag
has flags type = not (word_and 64 flags (make_flag type) == 0)

bit-with_bit : (b : Bool) (a : ℕ) → ((with_bit b a % 2 == 1) ≡ b) × (with_bit b a / 2 ≡ a)
bit-with_bit true a = (ground arith, omega arith)
bit-with_bit false a = (ground arith, omega arith)

bit-word_or : (w a b i : ℕ) → i < w → bit (word_or w a b) i ≡ (bit a i || bit b i)
unfolding word_or
bit-word_or zero a b i h = ground arith
bit-word_or (suc w) a b zero h =
    (bit-with_bit (a % 2 == 1 || b % 2 == 1) (word_or w (a / 2) (b / 2))).0
bit-word_or (suc w) a b (suc i) h =
    ap (λ x. bit x i) (bit-with_bit (a % 2 == 1 || b % 2 == 1) (word_or w (a / 2) (b / 2))).1
    ∙ bit-word_or w (a / 2) (b / 2) i (omega arith)

bit-word_and : (w a b i : ℕ) → i < w → bit (word_and w a b) i ≡ (bit a i && bit b i)
unfolding word_and
bit-word_and zero a b i h = ground arith
bit-word_and (suc w) a b zero h =
    (bit-with_bit (a % 2 == 1 && b % 2 == 1) (word_and w (a / 2) (b / 2))).0
bit-word_and (suc w) a b (suc i) h =
    ap (λ x. bit x i) (bit-with_bit (a % 2 == 1 && b % 2 == 1) (word_and w (a / 2) (b / 2))).1
    ∙ bit-word_and w (a / 2) (b / 2) i (omega arith)

bit-word_not : (w a i : ℕ) → i < w → bit (word_not w a) i ≡ not (bit a i)
unfolding word_not
bit-word_not zero a i h = ground arith
bit-word_not (suc w) a zero h = (bit-with_bit (not (a % 2 == 1)) (word_not w (a / 2))).0
bit-word_not (suc w) a (suc i) h =
    ap (λ x. bit x i) (bit-with_bit (not (a % 2 == 1)) (word_not w (a / 2))).1
    ∙ bit-word_not w (a / 2) i (omega arith)

half_power : (u : ℕ) → (2 ^ suc u / 2 ≡ 2 ^ u) × (2 ^ suc u % 2 ≡ 0)
half_power u = (omega arith, omega arith)

bit_of_zero : (i : ℕ) → bit 0 i ≡ false
bit_of_zero zero = refl
bit_of_zero (suc i) = bit_of_zero i

bit-power : (u i : ℕ) → bit (2 ^ u) i ≡ (i == u)
bit-power zero zero = refl
bit-power zero (suc i) = bit_of_zero i ∙ ground arith
bit-power (suc u) zero = rw (half_power u).1 (ground arith)
bit-power (suc u) (suc i) = rw (half_power u).0 (bit-power u i ∙ ground arith)

word_and_zero : (w a : ℕ) → word_and w a 0 ≡ 0
unfolding word_and
word_and_zero zero a = refl
word_and_zero (suc w) a = ground (arith, word_and_zero w (a / 2))

power_positive : (n : ℕ) → 1 ≤ 2 ^ n
power_positive zero = omega arith
power_positive (suc n) = omega (arith, power_positive n)

bit-ones : (n i : ℕ) → i < n → bit (2 ^ n - 1) i ≡ true
bit-ones zero i h = ground arith
bit-ones (suc n) zero h =
    let odd : (2 ^ suc n - 1) % 2 ≡ 1 = omega (arith, power_positive n) in rw odd refl
bit-ones (suc n) (suc i) h =
    let half : (2 ^ suc n - 1) / 2 ≡ 2 ^ n - 1 = omega (arith, power_positive n) in
    rw half (bit-ones n i (omega arith))

-- The conjunction with one bit is not 0 exactly when the bit is set.
word_and-power : (w a u : ℕ) → u < w → not (word_and w a (2 ^ u) == 0) ≡ bit a u
unfolding word_and
word_and-power zero a u h = ground arith
word_and-power (suc w) a zero h = ground (arith, word_and_zero w (a / 2))
word_and-power (suc w) a (suc u) h =
    let ih = word_and-power w (a / 2) u (omega arith) in
    rw (half_power u).0 (ground (arith, (half_power u).1, ih))

has-bit : (flags u : ℕ) → u < num_opprvlg → has flags u ≡ bit flags u
unfolding has make_flag
has-bit flags u h = word_and-power 64 flags u (omega arith)

-- After `addFlag` a user has the privilege that was added and those that were there before, and
-- after `removeFlag` those that were there before but for the one that was removed.
pub has-flags :
    (flags type other : ℕ)
    → type < num_opprvlg
    → other < num_opprvlg
    → (has (add_flag flags type) other ≡ (has flags other || other == type))
      × (has (remove_flag flags type) other ≡ (has flags other && not (other == type)))
unfolding add_flag remove_flag
has-flags flags type other h k = (
  has-bit (word_or 64 flags (2 ^ type)) other k
      ∙ bit-word_or 64 flags (2 ^ type) other (omega arith)
      ∙ rw (bit-power type other, has-bit flags other k) refl,
  has-bit (word_and 64 flags (word_not 64 (2 ^ type))) other k
      ∙ bit-word_and 64 flags (word_not 64 (2 ^ type)) other (omega arith)
      ∙ rw
          (
            bit-word_not 64 (2 ^ type) other (omega arith),
            bit-power type other,
            has-bit flags other k,
          )
          refl,
)

-- The state, and the identifiers of no user and of the system.
pub record OperationPrivilege : Type 0 where
  pub user_id : ℤ
  pub flags : ℕ

abbrev pub invalid_user_id : ℤ
invalid_user_id = negsuc 0

abbrev pub user_id_system : ℤ
user_id_system = pos 0

abbrev pub all_privileges : ℕ
all_privileges = 2 ^ 28 - 1

unfoldable pub add : OperationPrivilege → ℕ → OperationPrivilege
unfolding add_flag
add p type = record p { flags = add_flag p.flags type }

unfoldable pub remove : OperationPrivilege → ℕ → OperationPrivilege
unfolding remove_flag
remove p type = record p { flags = remove_flag p.flags type }

abbrev pub set_flags : OperationPrivilege → ℕ → OperationPrivilege
set_flags p flags = record p { flags = flags }

unfoldable pub eq : OperationPrivilege → OperationPrivilege → Bool
eq p rhs =
    if not (eqb_ℤ p.user_id rhs.user_id)
    then false
    else if not (p.flags == rhs.flags)
    then false
    else true

-- `find_flags` is what the database knows of a user: none, if the user is not found.
unfoldable pub set_user_id : (ℤ → Option ℕ) → ℤ → OperationPrivilege
set_user_id find_flags user_id =
    if eqb_ℤ user_id invalid_user_id
    then record { user_id = user_id; flags = 0 }
    else if eqb_ℤ user_id user_id_system
    then record { user_id = user_id; flags = all_privileges }
    else elim (find_flags user_id) [
      | none ↦ record { user_id = invalid_user_id; flags = 0 }
      | some flags ↦ record { user_id = user_id; flags = flags }
    ]

privileges_system :
    (find_flags : ℤ → Option ℕ) (user_id : ℤ) (type : ℕ)
    → eqb_ℤ user_id user_id_system ≡ true
    → has all_privileges type ≡ true
    → has (set_user_id find_flags user_id).flags type ≡ eqb_ℤ user_id user_id_system
unfolding set_user_id
privileges_system find_flags user_id type e all =
    let valid : eqb_ℤ user_id invalid_user_id ≡ false = ground arith in rw (valid, e) all

privileges_none :
    (find_flags : ℤ → Option ℕ) (user_id : ℤ) (type : ℕ)
    → eqb_ℤ user_id user_id_system ≡ false
    → find_flags user_id ≡ none
    → has 0 type ≡ false
    → has (set_user_id find_flags user_id).flags type ≡ eqb_ℤ user_id user_id_system
unfolding set_user_id
privileges_none find_flags user_id type e n clear =
    elim (Bool-cases (eqb_ℤ user_id invalid_user_id)) [
      | inl i ↦ rw (i, e) clear
      | inr i ↦ rw (i, e, n) clear
    ]

-- The system has every privilege, and any other user that the database does not find has none.
pub set_user_id_lem :
    (find_flags : ℤ → Option ℕ) (user_id : ℤ) (type : ℕ)
    → type < num_opprvlg
    → find_flags user_id ≡ none
    → (has (set_user_id find_flags user_id_system).flags type ≡ true)
      × (has (set_user_id find_flags user_id).flags type ≡ eqb_ℤ user_id user_id_system)
unfolding set_user_id
set_user_id_lem find_flags user_id type h none_found =
    let all : has all_privileges type ≡ true = has-bit all_privileges type h ∙ bit-ones 28 type h in
    let clear : has 0 type ≡ false = has-bit 0 type h ∙ bit_of_zero type in
    (
      all,
      elim (Bool-cases (eqb_ℤ user_id user_id_system)) [
        | inl e ↦ privileges_system find_flags user_id type e all
        | inr e ↦ privileges_none find_flags user_id type e none_found clear
      ],
    )
