-- ===== src/Mlpl/SmartBuffer/Operations.antt =====
-- server/mlpl/src/SmartBuffer.cc and SmartBuffer.h: a buffer with a write position. What `realloc`
-- gives is a parameter, since the bytes of a fresh block are not specified; `size_t` has 64 bits.
use hatohol.Base.{
  ℕ, ◌+◌, ◌-◌, ◌%◌, Bool, true, false, Option, none, some, [], ltb, if◌then◌else◌, length, take,
  replicate, Bytes,
}
use package.hatohol.Mlpl.SmartBuffer.Block.{size_mod, write_at, read_at, to_bytes, of_bytes}

-- The exceptions, and `undefined` for an access beyond the block.
pub data Fault : Type 0 where
  alloc_failed : Fault
  range_error : Fault
  out_of_range : Fault
  undefined : Fault

pub data Outcome {ℓ} (A : Type ℓ) : Type ℓ where
  ok : A → Outcome A
  fail : Fault → Outcome A

abbrev pub then_ok {ℓ κ} : {A : Type ℓ} → {B : Type κ} → Outcome A → (A → Outcome B) → Outcome B
then_ok (ok a) f = f a
then_ok (fail e) f = fail e

-- The block's own length is what was allocated; a null pointer is the empty block.
pub record SmartBuffer : Type 0 where
  pub index : ℕ
  pub buf : Bytes
  pub size : ℕ
  pub watermark : ℕ

unfoldable pub init : SmartBuffer
init = record { index = 0; buf = []; size = 0; watermark = 0 }

unfoldable pub remaining_size : SmartBuffer → ℕ
remaining_size b = (b.size + size_mod - b.index) % size_mod

unfoldable pub reset_index : SmartBuffer → SmartBuffer
reset_index b = record b { index = 0 }

unfoldable pub set_index : SmartBuffer → ℕ → SmartBuffer
set_index b i = record b { index = i }

unfoldable pub reset_index_deep : SmartBuffer → SmartBuffer
unfolding reset_index
reset_index_deep b = record (reset_index b) { watermark = 0 }

unfoldable pub set_watermark_if_needed : SmartBuffer → ℕ → SmartBuffer
set_watermark_if_needed b i = if ltb b.watermark i then record b { watermark = i } else b

unfoldable pub inc_index : SmartBuffer → ℕ → SmartBuffer
unfolding set_watermark_if_needed
inc_index b size =
    let i = (b.index + size) % size_mod in set_watermark_if_needed (record b { index = i }) i

-- `memcpy`, `memset` or an assignment through a pointer into the block.
unfoldable pub store_at : SmartBuffer → ℕ → Bytes → Outcome SmartBuffer
unfolding write_at
store_at b i src = elim (write_at b.buf i src) [
  | none ↦ fail undefined
  | some block ↦ ok (record b { buf = block })
]

unfoldable pub add : SmartBuffer → Bytes → Outcome SmartBuffer
unfolding store_at inc_index
add b src = then_ok (store_at b b.index src) (λ c. ok (inc_index c (length src)))

unfoldable pub add_zero : SmartBuffer → ℕ → Outcome SmartBuffer
unfolding store_at inc_index
add_zero b size = then_ok (store_at b b.index (replicate size 0)) (λ c. ok (inc_index c size))

-- `n` is the size of the type in bytes.
unfoldable pub add_template : SmartBuffer → ℕ → ℕ → Outcome SmartBuffer
unfolding store_at to_bytes set_watermark_if_needed
add_template b n val = then_ok (store_at b b.index (to_bytes n val)) (λ c.
    let i = (c.index + n) % size_mod in ok (set_watermark_if_needed (record c { index = i }) i))

unfoldable pub add8 : SmartBuffer → ℕ → Outcome SmartBuffer
unfolding add_template
add8 b val = add_template b 1 val

unfoldable pub add16 : SmartBuffer → ℕ → Outcome SmartBuffer
unfolding add_template
add16 b val = add_template b 2 val

unfoldable pub add32 : SmartBuffer → ℕ → Outcome SmartBuffer
unfolding add_template
add32 b val = add_template b 4 val

unfoldable pub add64 : SmartBuffer → ℕ → Outcome SmartBuffer
unfolding add_template
add64 b val = add_template b 8 val

unfoldable pub set_at : SmartBuffer → ℕ → ℕ → Outcome SmartBuffer
unfolding store_at to_bytes
set_at b i val = store_at b i (to_bytes 4 val)

unfoldable pub get_value : SmartBuffer → ℕ → ℕ → Outcome ℕ
unfolding read_at of_bytes
get_value b n i = elim (read_at b.buf i n) [ none ↦ fail undefined | some v ↦ ok (of_bytes v) ]

unfoldable pub get_value_and_inc_index : SmartBuffer → ℕ → Outcome (SmartBuffer × ℕ)
unfolding get_value
get_value_and_inc_index b n =
    then_ok (get_value b n b.index) (λ v. ok (record b { index = (b.index + n) % size_mod }, v))

-- The destination's new state, and what is left of this buffer.
unfoldable pub hand_over : SmartBuffer → SmartBuffer × SmartBuffer
unfolding reset_index_deep
hand_over b = (
  record { index = b.index; buf = b.buf; size = b.size; watermark = b.watermark },
  record (reset_index_deep b) { buf = []; size = 0 },
)

unfoldable pub take_over : SmartBuffer → SmartBuffer × SmartBuffer
unfolding hand_over
take_over b = hand_over b

module _ (realloc : Bytes → ℕ → Option Bytes) where
  unfoldable pub alloc : SmartBuffer → ℕ → Bool → Outcome SmartBuffer
  unfolding reset_index_deep
  alloc b size deep = elim (realloc b.buf size) [
    | none ↦ fail alloc_failed
    | some block ↦
        let moved = record b { buf = block } in
        ok (record (if deep then reset_index_deep moved else moved) { size = size })
  ]

  unfoldable pub init_sized : ℕ → Outcome SmartBuffer
  unfolding alloc init
  init_sized size = alloc init size true

  -- The copy constructor: `alloc` resets the index and the watermark that were copied.
  unfoldable pub copy : SmartBuffer → Outcome SmartBuffer
  unfolding alloc store_at
  copy rhs =
      then_ok (alloc (record rhs { buf = [] }) rhs.size true)
        (λ c. store_at c 0 (take rhs.size rhs.buf))

  unfoldable pub ensure_remaining_size : SmartBuffer → ℕ → Outcome SmartBuffer
  unfolding alloc
  ensure_remaining_size b size =
      let required = (b.index + size) % size_mod in
      if ltb b.size required then alloc b required false else ok b

  unfoldable pub add_ex : SmartBuffer → Bytes → Outcome SmartBuffer
  unfolding ensure_remaining_size add
  add_ex b src =
      let required = (b.index + length src) % size_mod in
      then_ok (ensure_remaining_size b required) (λ c. add c src)

  unfoldable pub add_ex_template : SmartBuffer → ℕ → ℕ → Outcome SmartBuffer
  unfolding ensure_remaining_size add_template
  add_ex_template b n val = then_ok (ensure_remaining_size b n) (λ c. add_template c n val)

  unfoldable pub add_ex8 : SmartBuffer → ℕ → Outcome SmartBuffer
  unfolding add_ex_template
  add_ex8 b val = add_ex_template b 1 val

  unfoldable pub add_ex16 : SmartBuffer → ℕ → Outcome SmartBuffer
  unfolding add_ex_template
  add_ex16 b val = add_ex_template b 2 val

  unfoldable pub add_ex32 : SmartBuffer → ℕ → Outcome SmartBuffer
  unfolding add_ex_template
  add_ex32 b val = add_ex_template b 4 val

  unfoldable pub add_ex64 : SmartBuffer → ℕ → Outcome SmartBuffer
  unfolding add_ex_template
  add_ex64 b val = add_ex_template b 8 val
