-- ===== src/Mlpl/SmartBuffer/Extract.antt =====
-- Strings that are read back from their headers.
use hatohol.Base.{
  ℕ, ◌+◌, ◌-◌, ◌%◌, ◌≤◌, ◌<◌, ◌≡◌, refl, ◌∙◌, inl, inr, true, false, some, [], ◌∷◌, ◌++◌, arith,
  ltb, Bool-cases, length, length-append, Bytes,
}
use package.hatohol.Mlpl.SmartBuffer.Block.{
  size_mod, read_at, to_bytes, length-to_bytes, of_bytes-to_bytes4, length-written,
}
use package.hatohol.Mlpl.SmartBuffer.Operations.{
  SmartBuffer, ok, add, get_value, inc_index, set_watermark_if_needed,
}
use package.hatohol.Mlpl.SmartBuffer.Appends.{store_at-inside, wrap_small}
use package.hatohol.Mlpl.SmartBuffer.Strings.{insert_string, extract_string, read_string}
use package.hatohol.Mlpl.SmartBuffer.Regions.{
  written, read_at-before, read_at-written, read_at-size, read_at-offset,
}

inc_index_parts :
    (b : SmartBuffer) (n : ℕ)
    → b.index + n < size_mod
    → ((inc_index b n).size ≡ b.size)
      × ((inc_index b n).buf ≡ b.buf)
      × ((inc_index b n).index ≡ b.index + n)
unfolding inc_index set_watermark_if_needed
inc_index_parts b n small =
    let w = wrap_small (b.index + n) small in
    elim (Bool-cases (ltb b.watermark (b.index + n))) [
      | inl e ↦ rw (w, e) (refl, refl, refl)
      | inr e ↦ rw (w, e) (refl, refl, refl)
    ]

watermark_buf : (b : SmartBuffer) (i : ℕ) → (set_watermark_if_needed b i).buf ≡ b.buf
unfolding set_watermark_if_needed
watermark_buf b i = elim (Bool-cases (ltb b.watermark i)) [ inl e ↦ rw e refl | inr e ↦ rw e refl ]

abbrev after_add : SmartBuffer → Bytes → SmartBuffer
after_add b src = inc_index (record b { buf = written b.buf b.index src }) (length src)

-- What `add` does when the bytes fit.
add-after_add :
    (b : SmartBuffer) (src : Bytes)
    → b.index + length src ≤ length b.buf
    → add b src ≡ ok (after_add b src)
unfolding add
add-after_add b src inside = rw (store_at-inside b b.index src inside) refl

get_value4 :
    (b : SmartBuffer) (at val : ℕ)
    → read_at b.buf at 4 ≡ some (to_bytes 4 val)
    → get_value b 4 at ≡ ok (val % 0x1_0000_0000)
unfolding get_value
get_value4 b at val e = rw (get_value, e, of_bytes-to_bytes4 val) refl

-- A block in which a header at `at` describes the string at `body` is read as that string.
extract_string-parts :
    (b : SmartBuffer) (at body : ℕ) (str : Bytes)
    → at ≤ body
    → body - at < 0x8000_0000
    → length str < 0x1_0000_0000
    → read_at b.buf at 4 ≡ some (to_bytes 4 (length str))
    → read_at b.buf (at + 4) 4 ≡ some (to_bytes 4 (body - at))
    → read_at b.buf body (length str) ≡ some str
    → extract_string b at ≡ ok str
unfolding extract_string read_string
extract_string-parts b at body str before near short size offset chars =
    let s : length str % 0x1_0000_0000 ≡ length str = omega arith in
    let o : (body - at) % 0x1_0000_0000 ≡ body - at = omega arith in
    let l : ltb (body - at) 0x8000_0000 ≡ true = ground arith in
    let p : at + (body - at) ≡ body = omega arith in
    rw
      (
        get_value4 b at (length str) size,
        get_value4 b (at + 4) (body - at) offset,
        s,
        o,
        l,
        p,
        read_string,
        chars,
      )
      refl

-- The block with the header and the string in it.
record Inserted (b : SmartBuffer) (str : Bytes) (body : ℕ) (c : SmartBuffer) : Type 0 where
  at_index : c.index ≡ b.index + 8
  size : read_at c.buf b.index 4 ≡ some (to_bytes 4 (length str))
  offset : read_at c.buf (b.index + 4) 4 ≡ some (to_bytes 4 (body - b.index))
  chars : read_at c.buf body (length str) ≡ some str

abbrev header : SmartBuffer → Bytes → ℕ → Bytes
header b str body = to_bytes 4 (length str) ++ to_bytes 4 (body - b.index)

abbrev filled : SmartBuffer → Bytes → ℕ → SmartBuffer
filled b str body =
    let c = after_add b (header b str body) in record c { buf = written c.buf body (str ++ 0 ∷ []) }

length-header : (b : SmartBuffer) (str : Bytes) (body : ℕ) → length (header b str body) ≡ 8
length-header b str body = omega (
  arith,
  length-append (to_bytes 4 (length str)) (to_bytes 4 (body - b.index)),
  length-to_bytes 4 (length str),
  length-to_bytes 4 (body - b.index),
)

filled-Inserted :
    (b : SmartBuffer) (str : Bytes) (body : ℕ)
    → b.index + 8 ≤ body
    → body + length (str ++ 0 ∷ []) ≤ length b.buf
    → length b.buf < size_mod
    → Inserted b str body (filled b str body)
filled-Inserted b str body behind inside small =
    let hdr = header b str body in
    let n = length-header b str body in
    let (s, block, at) =
      inc_index_parts (record b { buf = written b.buf b.index hdr }) (length hdr) (omega arith) in
    let len = length-written b.buf b.index hdr (omega arith) in
    let sz = length-to_bytes 4 (length str) in
    let off = length-to_bytes 4 (body - b.index) in
    record {
      at_index = at ∙ omega arith;
      size = rw block (
          read_at-before (written b.buf b.index hdr) b.index 4 body (str ++ 0 ∷ []) (omega arith)
            (omega arith)
          ∙ read_at-size b.buf b.index (to_bytes 4 (length str)) (to_bytes 4 (body - b.index)) sz n
              (omega arith));
      offset = rw block (
          read_at-before (written b.buf b.index hdr) (b.index + 4) 4 body (str ++ 0 ∷ [])
            (omega arith) (omega arith)
          ∙ read_at-offset b.buf b.index (to_bytes 4 (length str)) (to_bytes 4 (body - b.index)) sz
              off (omega arith));
      chars =
          rw block (read_at-written (written b.buf b.index hdr) body str (0 ∷ []) (omega arith));
    }

insert_string-filled :
    (b : SmartBuffer) (str : Bytes) (body : ℕ)
    → length b.buf ≡ b.size
    → b.size < size_mod
    → b.index + 8 ≤ body
    → body + length str + 1 ≤ b.size
    → body - b.index < 0x8000_0000
    → length str < 0x1_0000_0000
    → insert_string b str body
      ≡ ok (
        set_watermark_if_needed (filled b str body) (body + length str + 1),
        body + length str + 1,
      )
unfolding insert_string
insert_string-filled b str body h small behind inside near short =
    let n = length-header b str body in
    let (s, block, at) =
      inc_index_parts (record b { buf = written b.buf b.index (header b str body) })
        (length (header b str body)) (omega arith) in
    let len = length-written b.buf b.index (header b str body) (omega arith) in
    let off : (body + size_mod - b.index) % size_mod ≡ body - b.index = omega arith in
    let next : (body + length str + 1) % size_mod ≡ body + length str + 1 = omega arith in
    let l1 : ltb (body - b.index) 0x8000_0000_0000_0000 ≡ true = ground arith in
    let l2 : ltb 0x7fff_ffff (body - b.index) ≡ false = ground arith in
    let l3 : ltb 0xffff_ffff (length str) ≡ false = ground arith in
    let l4 : ltb b.size (body + length str + 1) ≡ false = ground arith in
    let added = add-after_add b (header b str body) (omega arith) in
    let stored =
      store_at-inside (after_add b (header b str body)) body (str ++ 0 ∷ [])
        (rw block (omega (arith, length-append str (0 ∷ [])))) in
    rw (off, next, l1, l2, l3, l4, added, stored) refl

-- A string that is inserted behind its header is read back from that header, and the place for
-- the next string is the one after its terminating NUL. The buffer is one block of its size, the
-- string and its NUL lie in it and begin at most 2 ^ 31 - 1 after the header, and the string is
-- shorter than 2 ^ 32: the checks of the code pass.
pub extract_string-insert_string :
    (b : SmartBuffer) (str : Bytes) (body : ℕ)
    → length b.buf ≡ b.size
    → b.size < size_mod
    → b.index + 8 ≤ body
    → body + length str + 1 ≤ b.size
    → body - b.index < 0x8000_0000
    → length str < 0x1_0000_0000
    → (c : SmartBuffer) × (insert_string b str body ≡ ok (c, body + length str + 1))
      × (extract_string c b.index ≡ ok str)
extract_string-insert_string b str body h small behind inside near short =
    let f =
      filled-Inserted b str body behind (omega (arith, length-append str (0 ∷ []))) (omega arith) in
    let same = watermark_buf (filled b str body) (body + length str + 1) in
    (
      set_watermark_if_needed (filled b str body) (body + length str + 1),
      insert_string-filled b str body h small behind inside near short,
      extract_string-parts (set_watermark_if_needed (filled b str body) (body + length str + 1))
          b.index body str (omega arith) near short (rw same f.size) (rw same f.offset)
          (rw same f.chars),
    )
