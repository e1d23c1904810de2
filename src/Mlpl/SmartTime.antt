-- ===== src/Mlpl/SmartTime.antt =====
-- server/mlpl/src/SmartTime.cc: a `timespec` with its arithmetic and its order. Seconds and
-- nanoseconds are signed and do not overflow; `1e9` is exact in the `double` that the code uses.
pub mod Laws
use hatohol.Base.{ℕ, Bool, true, false, not, ◌||◌, if◌then◌else◌}
use hatohol.Base.Int.{ℤ, pos, ◌+ℤ◌, ◌-ℤ◌, ltb_ℤ, leb_ℤ, eqb_ℤ}

pub record SmartTime : Type 0 where
  pub tv_sec : ℤ
  pub tv_nsec : ℤ

abbrev pub nano_sec_per_sec : ℕ
nano_sec_per_sec = 1000000000

-- `INIT_NONE`.
abbrev pub init_none : SmartTime
init_none = record { tv_sec = pos 0; tv_nsec = pos 0 }

unfoldable pub has_valid_time : SmartTime → Bool
has_valid_time t = not (eqb_ℤ t.tv_sec (pos 0)) || not (eqb_ℤ t.tv_nsec (pos 0))

-- `operator+=`, whose argument is a `timespec`.
unfoldable pub add : SmartTime → SmartTime → SmartTime
add t rhs =
    let sec = t.tv_sec +ℤ rhs.tv_sec in
    let nsec = t.tv_nsec +ℤ rhs.tv_nsec in
    if leb_ℤ (pos nano_sec_per_sec) nsec
    then record { tv_sec = sec +ℤ pos 1; tv_nsec = nsec -ℤ pos nano_sec_per_sec }
    else record { tv_sec = sec; tv_nsec = nsec }

-- `operator-=`.
unfoldable pub sub : SmartTime → SmartTime → SmartTime
sub t rhs =
    let sec = t.tv_sec -ℤ rhs.tv_sec in
    let nsec = t.tv_nsec -ℤ rhs.tv_nsec in
    if ltb_ℤ nsec (pos 0)
    then record { tv_sec = sec -ℤ pos 1; tv_nsec = nsec +ℤ pos nano_sec_per_sec }
    else record { tv_sec = sec; tv_nsec = nsec }

unfoldable pub eq : SmartTime → SmartTime → Bool
eq t rhs =
    if not (eqb_ℤ t.tv_sec rhs.tv_sec)
    then false
    else if not (eqb_ℤ t.tv_nsec rhs.tv_nsec)
    then false
    else true

unfoldable pub ge : SmartTime → SmartTime → Bool
ge t rhs =
    if ltb_ℤ rhs.tv_sec t.tv_sec
    then true
    else if ltb_ℤ t.tv_sec rhs.tv_sec
    then false
    else leb_ℤ rhs.tv_nsec t.tv_nsec

unfoldable pub gt : SmartTime → SmartTime → Bool
unfolding ge
gt t rhs = not (ge rhs t)

unfoldable pub le : SmartTime → SmartTime → Bool
unfolding gt
le t rhs = not (gt t rhs)

unfoldable pub lt : SmartTime → SmartTime → Bool
unfolding ge
lt t rhs = not (ge t rhs)
