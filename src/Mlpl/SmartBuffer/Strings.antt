-- ===== src/Mlpl/SmartBuffer/Strings.antt =====
-- Strings in the buffer: `add<T>`, `getString<T>`, `insertString` and `extractString`.
use hatohol.Base.{
  ℕ, ◌+◌, ◌-◌, ◌%◌, ◌^◌, none, some, [], ◌∷◌, ◌++◌, ltb, if◌then◌else◌, length, Bytes,
}
use package.hatohol.Mlpl.SmartBuffer.Block.{size_mod, read_at, to_bytes}
use package.hatohol.Mlpl.SmartBuffer.Operations.{
  SmartBuffer, Outcome, ok, fail, range_error, out_of_range, undefined, then_ok, add, get_value,
  store_at, set_watermark_if_needed,
}

-- `1 << (8 * sizeof(T))` is an `int` there: `n` is 1 or 2.
unfoldable pub add_string : SmartBuffer → ℕ → Bytes → Outcome SmartBuffer
unfolding add to_bytes
add_string b n str =
    if ltb (256 ^ n - 1) (length str)
    then fail range_error
    else then_ok (add b (to_bytes n (length str))) (λ c. add c str)

-- The chars from `pos` on, by their number.
unfoldable pub read_string : SmartBuffer → ℕ → ℕ → Outcome Bytes
unfolding read_at
read_string b pos len = elim (read_at b.buf pos len) [ none ↦ fail undefined | some s ↦ ok s ]

unfoldable pub get_string : SmartBuffer → ℕ → ℕ → Outcome Bytes
unfolding get_value read_string
get_string b n pos = then_ok (get_value b n pos) (λ len. read_string b (pos + n) len)

unfoldable pub get_string_and_inc_index : SmartBuffer → ℕ → Outcome (SmartBuffer × Bytes)
unfolding get_string
get_string_and_inc_index b n =
    then_ok (get_string b n b.index)
      (λ s. ok (record b { index = (b.index + (n + length s)) % size_mod }, s))

-- `offset` is the difference as a `ssize_t`, here still the word; the header takes its low half.
unfoldable pub insert_string : SmartBuffer → Bytes → ℕ → Outcome (SmartBuffer × ℕ)
unfolding add to_bytes store_at set_watermark_if_needed
insert_string b str body =
    let len = length str in
    let next_body = (body + len + 1) % size_mod in
    let offset = (body + size_mod - b.index) % size_mod in
    let overflows =
      if ltb offset 0x8000_0000_0000_0000
      then ltb 0x7fff_ffff offset
      else ltb offset (size_mod - 0x8000_0000) in
    if ltb 0xffff_ffff len
    then fail range_error
    else if ltb b.size next_body
    then fail out_of_range
    else if overflows
    then fail out_of_range
    else then_ok (add b (to_bytes 4 len ++ to_bytes 4 offset)) (λ c.
      then_ok (store_at c body (str ++ 0 ∷ []))
        (λ d. ok (set_watermark_if_needed d next_body, next_body)))

-- The header stands at `at`.
unfoldable pub extract_string : SmartBuffer → ℕ → Outcome Bytes
unfolding get_value read_string
extract_string b at = then_ok (get_value b 4 at) (λ size.
    then_ok (get_value b 4 (at + 4)) (λ offset.
      if ltb offset 0x8000_0000
      then read_string b (at + offset) size
      else if ltb (at + offset) 0x1_0000_0000
      then fail undefined
      else read_string b (at + offset - 0x1_0000_0000) size))

unfoldable pub extract_string_and_inc_index : SmartBuffer → Outcome (SmartBuffer × Bytes)
unfolding extract_string
extract_string_and_inc_index b =
    then_ok (extract_string b b.index) (λ s. ok (record b { index = (b.index + 8) % size_mod }, s))
