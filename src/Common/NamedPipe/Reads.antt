-- ===== src/Common/NamedPipe/Reads.antt =====
-- What is read from a pipe, in pieces.
use hatohol.Base.{
  ℕ, ◌+◌, ◌-◌, ◌≤◌, ◌<◌, ◌≡◌, refl, ap, ◌∙◌, true, false, Option, List, [], ◌∷◌, ◌++◌, arith, ◌==◌,
  if◌then◌else◌, if-true, if-false, length, take, drop, take-length-append, Bytes,
}
use hatohol.Mlpl.SmartBuffer.Block.{size_mod, length-written}
use hatohol.Mlpl.SmartBuffer.Operations.{
  SmartBuffer, Outcome, ok, fail, alloc_failed, then_ok, reset_index, ensure_remaining_size,
}
use hatohol.Mlpl.SmartBuffer.Appends.{
  Reallocates, Grown, ensure_remaining_size-Grown, store_at-inside,
}
use package.hatohol.Common.NamedPipe.{Reader, Read, delivered, more, pull, read_cb}

-- The channel gives one piece after the other.
unfoldable pub read_pieces : List Bytes → Reader → Outcome Read
unfolding read_cb
read_pieces [] r = ok (more r)
read_pieces (piece ∷ pieces) r =
    then_ok (read_cb piece r)
      (λ x. elim x [ delivered b ↦ ok (delivered b) | more s ↦ read_pieces pieces s ])

abbrev pub total : List Bytes → ℕ
total [] = 0
total (piece ∷ pieces) = length piece + total pieces

-- The buffer is delivered, with `last` at its start.
abbrev pub Delivers : Bytes → Outcome Read → Type 0
Delivers last out =
    (b : SmartBuffer) × (out ≡ ok (delivered b)) × (b.index ≡ 0) × (take (length last) b.buf ≡ last)

-- The buffer with a piece at its start.
abbrev stored : Bytes → SmartBuffer → SmartBuffer
stored piece b = record b {
  buf = take b.index b.buf ++ (piece ++ drop (b.index + length piece) b.buf);
}

read_cb-stored :
    (piece : Bytes) (r : Reader)
    → r.pull_buf.index ≡ 0
    → length piece ≤ length r.pull_buf.buf
    → read_cb piece r
      ≡ ok (
          if r.pull_remaining_size - length piece == 0
          then delivered (reset_index (stored piece r.pull_buf))
          else more (record {
            pull_buf = stored piece r.pull_buf;
            pull_remaining_size = r.pull_remaining_size - length piece;
          }))
unfolding read_cb
read_cb-stored piece r at fits =
    ap
      (λ out. then_ok out (λ c.
        let remaining = r.pull_remaining_size - length piece in
        ok (
          if remaining == 0
          then delivered (reset_index c)
          else more (record { pull_buf = c; pull_remaining_size = remaining }))))
      (store_at-inside r.pull_buf r.pull_buf.index piece (omega arith))

-- Each piece is stored where the first one was.
read_pieces-Delivers :
    (pieces : List Bytes) (last : Bytes) (r : Reader)
    → r.pull_buf.index ≡ 0
    → r.pull_remaining_size ≤ length r.pull_buf.buf
    → total pieces + length last ≡ r.pull_remaining_size
    → 0 < length last
    → Delivers last (read_pieces (pieces ++ last ∷ []) r)
unfolding read_pieces reset_index
read_pieces-Delivers [] last r at fits sum some_left =
    let done : (r.pull_remaining_size - length last == 0) ≡ true = ground (arith, sum) in
    let b : SmartBuffer = stored last r.pull_buf in
    let next : Read → Outcome Read =
      λ x. elim x [ delivered b ↦ ok (delivered b) | more s ↦ read_pieces [] s ] in
    (
      reset_index b,
      ap (λ out. then_ok out next) (read_cb-stored last r at (omega arith))
          ∙ ap next (if-true (delivered (reset_index b)) _ done),
      refl,
      ap
            (λ i.
              take (length last)
                (take i r.pull_buf.buf ++ (last ++ drop (i + length last) r.pull_buf.buf)))
            at
          ∙ take-length-append last (drop (0 + length last) r.pull_buf.buf),
    )
read_pieces-Delivers (piece ∷ pieces) last r at fits sum some_left =
    let left : (r.pull_remaining_size - length piece == 0) ≡ false =
      ground (arith, sum, some_left) in
    let b : SmartBuffer = stored piece r.pull_buf in
    let s : Reader = record {
      pull_buf = b;
      pull_remaining_size = r.pull_remaining_size - length piece;
    } in
    let next : Read → Outcome Read = λ x. elim x [
      | delivered b ↦ ok (delivered b)
      | more s ↦ read_pieces (pieces ++ last ∷ []) s
    ] in
    let size : length b.buf ≡ length r.pull_buf.buf =
      length-written r.pull_buf.buf r.pull_buf.index piece (omega arith) in
    let (c, e, i, t) =
      read_pieces-Delivers pieces last s at (omega arith) (omega arith) some_left in
    (
      c,
      ap (λ out. then_ok out next) (read_cb-stored piece r at (omega arith))
          ∙ ap next (if-false _ (more s) left)
          ∙ e,
      i,
      t,
    )

abbrev pub PullDelivers : List Bytes → Bytes → Outcome Reader → Type 0
PullDelivers pieces last (ok r) = Delivers last (read_pieces (pieces ++ last ∷ []) r)
PullDelivers pieces last (fail e) = e ≡ alloc_failed

-- A message of the size that was pulled is delivered when its last piece has come, unless `realloc`
-- fails. That piece then stands at the start of the buffer: the message does when it comes in one piece,
-- and otherwise what it ends with has been written over what it begins with. The last piece is not
-- empty, the buffer is one block of its size, what is pulled behind its index is below `size_t`, and
-- `realloc` keeps the old bytes.
pub pull-read_pieces :
    (realloc : Bytes → ℕ → Option Bytes) (pieces : List Bytes) (last : Bytes) (b : SmartBuffer)
    → Reallocates realloc
    → length b.buf ≡ b.size
    → b.index ≤ b.size
    → b.size < size_mod
    → b.index + (total pieces + length last) < size_mod
    → 0 < length last
    → PullDelivers pieces last (pull realloc (total pieces + length last) b)
unfolding pull reset_index
pull-read_pieces realloc pieces last b re block inside small fits some_left =
    let size : ℕ = total pieces + length last in
    pulled (ensure_remaining_size realloc b size)
      (ensure_remaining_size-Grown realloc re b size block inside small fits)
  where
    pulled :
        (out : Outcome SmartBuffer)
        → Grown b (total pieces + length last) out
        → PullDelivers pieces last (
            then_ok out (λ c. ok (record {
              pull_buf = reset_index c;
              pull_remaining_size = total pieces + length last;
            })))
    pulled (fail e) g = g
    pulled (ok c) g =
        read_pieces-Delivers pieces last
          (record { pull_buf = reset_index c; pull_remaining_size = total pieces + length last })
          refl (omega (arith, g.0, g.2)) refl some_left
