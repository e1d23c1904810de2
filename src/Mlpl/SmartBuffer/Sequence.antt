-- ===== src/Mlpl/SmartBuffer/Sequence.antt =====
-- Several writes in a row, and reading the numbers back.
use hatohol.Base.{
  ℕ, ◌+◌, ◌*◌, ◌≤◌, ◌<◌, ◌≡◌, refl, sym, ◌∙◌, Option, List, [], ◌∷◌, ◌++◌, append-nil, append_assoc,
  arith, length, length-append, take, Bytes,
}
use package.hatohol.Mlpl.SmartBuffer.Block.{size_mod, to_bytes, length-to_bytes}
use package.hatohol.Mlpl.SmartBuffer.Operations.{
  SmartBuffer, Outcome, ok, fail, then_ok, add_ex, add_ex_template,
}
use package.hatohol.Mlpl.SmartBuffer.Appends.{
  Reallocates, Holds, Appended, add_ex-Appended, add_ex_template-Appended,
}

-- A call of `addEx`, or of `addEx8` to `addEx64` with the size of the number.
pub data Write : Type 0 where
  block : Bytes → Write
  number : ℕ → ℕ → Write

abbrev pub payload : Write → Bytes
payload (block src) = src
payload (number n val) = to_bytes n val

abbrev pub payloads : List Write → Bytes
payloads [] = []
payloads (w ∷ ws) = payload w ++ payloads ws

abbrev pub write : (Bytes → ℕ → Option Bytes) → SmartBuffer → Write → Outcome SmartBuffer
write realloc b (block src) = add_ex realloc b src
write realloc b (number n val) = add_ex_template realloc b n val

abbrev pub write_all : (Bytes → ℕ → Option Bytes) → SmartBuffer → List Write → Outcome SmartBuffer
write_all realloc b [] = ok b
write_all realloc b (w ∷ ws) = then_ok (write realloc b w) (λ c. write_all realloc c ws)

write-Appended :
    (realloc : Bytes → ℕ → Option Bytes)
    → Reallocates realloc
    → (b : SmartBuffer) (w : Write) → length b.buf ≡ b.size
    → b.index ≤ b.size
    → b.size < size_mod
    → 2 * (b.index + length (payload w)) < size_mod
    → Appended b (payload w) (write realloc b w)
write-Appended realloc re b (block src) h inside small fits =
    add_ex-Appended realloc re b src h inside small fits
write-Appended realloc re b (number n val) h inside small fits =
    add_ex_template-Appended realloc re b n val h inside small
      (omega (arith, length-to_bytes n val))

Appended-behind :
    (b c : SmartBuffer) (src more : Bytes) (out : Outcome SmartBuffer)
    → Holds b src c
    → Appended c more out
    → Appended b (src ++ more) out
Appended-behind b c src more (fail e) h a = a
Appended-behind b c src more (ok d) (hc, ic, inc, smc, mc, tc) (hd, id, ind, smd, md, td) = (
  hd,
  omega (arith, length-append src more),
  ind,
  smd,
  md,
  td ∙ rw (tc, append_assoc (take b.index b.buf) src more) refl,
)

Appended-then :
    (b : SmartBuffer) (src more : Bytes) (out : Outcome SmartBuffer)
    (f : SmartBuffer → Outcome SmartBuffer)
    → Appended b src out
    → ((c : SmartBuffer) → Holds b src c → Appended c more (f c))
    → Appended b (src ++ more) (then_ok out f)
Appended-then b src more (fail e) f a k = a
Appended-then b src more (ok c) f a k = Appended-behind b c src more (f c) a (k c a)

-- Any sequence of the extending writes, from a buffer that is one block of its size, either ends
-- in the exception for a failed `realloc` or leaves the payloads, in order and unbroken, behind
-- the bytes that stood before the old position: no write reaches beyond the block, the position
-- moves by the payloads' length and the watermark is not below it. What is written stays below
-- half of what `size_t` counts, and `realloc` keeps the old bytes. At the start the position is in
-- the block, or at its end, and not behind the watermark.
pub write_all-Appended :
    (realloc : Bytes → ℕ → Option Bytes)
    → Reallocates realloc
    → (b : SmartBuffer) (ws : List Write) → length b.buf ≡ b.size
    → b.index ≤ b.size
    → b.index ≤ b.watermark
    → b.size < size_mod
    → 2 * (b.index + length (payloads ws)) < size_mod
    → Appended b (payloads ws) (write_all realloc b ws)
write_all-Appended realloc re b [] h inside mark small fits =
    (h, omega arith, inside, small, mark, sym (append-nil (take b.index b.buf)))
write_all-Appended realloc re b (w ∷ ws) h inside mark small fits =
    let len = length-append (payload w) (payloads ws) in
    Appended-then b (payload w) (payloads ws) (write realloc b w) (λ c. write_all realloc c ws)
      (write-Appended realloc re b w h inside small (omega arith))
      (λ c (hc, ic, inc, smc, mc, tc).
        write_all-Appended realloc re c ws hc inc mc smc (omega (arith, len, ic)))
