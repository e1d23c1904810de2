-- ===== src/Mlpl/SmartTime/Laws.antt =====
-- Times as numbers of nanoseconds.
use hatohol.Base.{◌+◌, ◌*◌, ◌<◌, ◌≡◌, refl, ap, ◌⊎◌, inl, inr, arith, ltb→lt, leb→le, Bool-cases}
use hatohol.Base.Int.{
  ℤ, pos, negsuc, pos_part, neg_part, sub_ℕ, ◌+ℤ◌, ◌-ℤ◌, ◌≤ℤ◌, ltb_ℤ, leb_ℤ, eqb_ℤ, +ℤ_parts,
  -ℤ_parts, eq_of_parts,
}
use hatohol.Mlpl.SmartTime.{SmartTime, nano_sec_per_sec, add, sub, eq, ge, gt, le, lt}

-- The nanoseconds are a proper fraction of a second.
abbrev pub IsNormal : SmartTime → Type 0
IsNormal t = (pos 0 ≤ℤ t.tv_nsec) × (pos_part t.tv_nsec < nano_sec_per_sec)

unfoldable pub nanos : SmartTime → ℤ
nanos t =
    sub_ℕ (pos_part t.tv_sec * nano_sec_per_sec + pos_part t.tv_nsec)
      (neg_part t.tv_sec * nano_sec_per_sec + neg_part t.tv_nsec)

nanos_parts :
    (t : SmartTime)
    → pos_part (nanos t) + neg_part t.tv_sec * nano_sec_per_sec + neg_part t.tv_nsec
      ≡ neg_part (nanos t) + pos_part t.tv_sec * nano_sec_per_sec + pos_part t.tv_nsec
unfolding nanos
nanos_parts t = ground arith

-- At most one of the two parts is not 0.
parts_apart : (a : ℤ) → (pos_part a ≡ 0) ⊎ (neg_part a ≡ 0)
parts_apart (pos n) = inr refl
parts_apart (negsuc n) = inl refl

-- A time from its seconds and nanoseconds, for the two branches of each operation.
abbrev at : ℤ → ℤ → SmartTime
at sec nsec = record { tv_sec = sec; tv_nsec = nsec }

-- The sum of two normal times is normal, and it is the sum of the nanoseconds.
pub add_lem :
    (t rhs : SmartTime)
    → IsNormal t
    → IsNormal rhs
    → IsNormal (add t rhs) × (nanos (add t rhs) ≡ nanos t +ℤ nanos rhs)
unfolding add
add_lem t rhs h g =
    let sec = t.tv_sec +ℤ rhs.tv_sec in
    let nsec = t.tv_nsec +ℤ rhs.tv_nsec in
    let n = nanos_parts t in
    let m = nanos_parts rhs in
    let s = +ℤ_parts t.tv_sec rhs.tv_sec in
    let f = +ℤ_parts t.tv_nsec rhs.tv_nsec in
    let total = +ℤ_parts (nanos t) (nanos rhs) in
    elim (Bool-cases (leb_ℤ (pos nano_sec_per_sec) nsec)) [
      | inl e ↦
          let high = leb→le _ _ e in
          let carried = at (sec +ℤ pos 1) (nsec -ℤ pos nano_sec_per_sec) in
          let s' = +ℤ_parts sec (pos 1) in
          let f' = -ℤ_parts nsec (pos nano_sec_per_sec) in
          rw (e, add)
            (
              (omega arith, omega (arith, parts_apart carried.tv_nsec)),
              eq_of_parts (nanos carried) (nanos t +ℤ nanos rhs)
                  (omega (arith, nanos_parts carried)),
            )
      | inr e ↦
          let plain = at sec nsec in
          rw (e, add)
            (
              (omega arith, ground (arith, parts_apart nsec)),
              eq_of_parts (nanos plain) (nanos t +ℤ nanos rhs) (omega (arith, nanos_parts plain)),
            )
    ]

-- The difference of two normal times is normal, and it is the difference of the nanoseconds.
sub_lem :
    (t rhs : SmartTime)
    → IsNormal t
    → IsNormal rhs
    → IsNormal (sub t rhs) × (nanos (sub t rhs) ≡ nanos t -ℤ nanos rhs)
unfolding sub
sub_lem t rhs h g =
    let sec = t.tv_sec -ℤ rhs.tv_sec in
    let nsec = t.tv_nsec -ℤ rhs.tv_nsec in
    let n = nanos_parts t in
    let m = nanos_parts rhs in
    let s = -ℤ_parts t.tv_sec rhs.tv_sec in
    let f = -ℤ_parts t.tv_nsec rhs.tv_nsec in
    let total = -ℤ_parts (nanos t) (nanos rhs) in
    elim (Bool-cases (ltb_ℤ nsec (pos 0))) [
      | inl e ↦
          let low = ltb→lt _ _ e in
          let borrowed = at (sec -ℤ pos 1) (nsec +ℤ pos nano_sec_per_sec) in
          let s' = -ℤ_parts sec (pos 1) in
          let f' = +ℤ_parts nsec (pos nano_sec_per_sec) in
          rw (e, sub)
            (
              (omega arith, omega (arith, parts_apart borrowed.tv_nsec)),
              eq_of_parts (nanos borrowed) (nanos t -ℤ nanos rhs)
                  (omega (arith, nanos_parts borrowed)),
            )
      | inr e ↦
          let plain = at sec nsec in
          rw (e, sub)
            (
              (ground arith, ground (arith, parts_apart nsec)),
              eq_of_parts (nanos plain) (nanos t -ℤ nanos rhs) (omega (arith, nanos_parts plain)),
            )
    ]

-- Equal nanoseconds, equal times.
nanos_injective : (t rhs : SmartTime) → IsNormal t → IsNormal rhs → nanos t ≡ nanos rhs → t ≡ rhs
nanos_injective t rhs h g e =
    let n = nanos_parts t in
    let m = nanos_parts rhs in
    let p = ap pos_part e in
    let q = ap neg_part e in
    let secs : t.tv_sec ≡ rhs.tv_sec = eq_of_parts t.tv_sec rhs.tv_sec (omega arith) in
    let nsecs : t.tv_nsec ≡ rhs.tv_nsec =
      eq_of_parts t.tv_nsec rhs.tv_nsec (omega (arith, ap pos_part secs, ap neg_part secs)) in
    λ i. record { tv_sec = secs i; tv_nsec = nsecs i }

-- Taking back what was added gives the time back, for two normal times.
add-sub : (t rhs : SmartTime) → IsNormal t → IsNormal rhs → sub (add t rhs) rhs ≡ t
add-sub t rhs h g =
    let (normal, sum) = add_lem t rhs h g in
    let (normal', difference) = sub_lem (add t rhs) rhs normal g in
    nanos_injective (sub (add t rhs) rhs) t normal' h (
      eq_of_parts _ _ (
        omega (
          arith,
          ap pos_part difference,
          ap neg_part difference,
          ap pos_part sum,
          ap neg_part sum,
          -ℤ_parts (nanos (add t rhs)) (nanos rhs),
          +ℤ_parts (nanos t) (nanos rhs),
        )))

-- Adding back what was taken off gives the time back, for two normal times.
pub sub-add : (t rhs : SmartTime) → IsNormal t → IsNormal rhs → add (sub t rhs) rhs ≡ t
sub-add t rhs h g =
    let (normal, difference) = sub_lem t rhs h g in
    let (normal', sum) = add_lem (sub t rhs) rhs normal g in
    nanos_injective (add (sub t rhs) rhs) t normal' h (
      eq_of_parts _ _ (
        omega (
          arith,
          ap pos_part difference,
          ap neg_part difference,
          ap pos_part sum,
          ap neg_part sum,
          +ℤ_parts (nanos (sub t rhs)) (nanos rhs),
          -ℤ_parts (nanos t) (nanos rhs),
        )))

-- The five comparisons of two normal times are those of the nanoseconds.
pub comparisons :
    (t rhs : SmartTime)
    → IsNormal t
    → IsNormal rhs
    → (ge t rhs ≡ leb_ℤ (nanos rhs) (nanos t))
      × (gt t rhs ≡ ltb_ℤ (nanos rhs) (nanos t))
      × (le t rhs ≡ leb_ℤ (nanos t) (nanos rhs))
      × (lt t rhs ≡ ltb_ℤ (nanos t) (nanos rhs))
      × (eq t rhs ≡ eqb_ℤ (nanos t) (nanos rhs))
unfolding ge gt le lt eq
comparisons t rhs h g =
    let n = nanos_parts t in
    let m = nanos_parts rhs in
    (ground arith, ground arith, ground arith, ground arith, ground arith)
