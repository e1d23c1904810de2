-- ===== src/Common/NamedPipe.antt =====
-- server/common/NamedPipe.cc: the buffers that are written to a pipe, and the buffer that is read from
-- one. What glib's channel answers is an argument: how many bytes it takes, or the bytes that it has.
pub mod Writes
pub mod Reads
use hatohol.Base.{
  ℕ, suc, ◌-◌, Bool, true, false, not, Option, List, [], ◌∷◌, ◌++◌, ◌==◌, if◌then◌else◌, length,
  take, drop, Bytes,
}
use hatohol.Mlpl.SmartBuffer.Operations.{
  SmartBuffer, Outcome, ok, then_ok, reset_index, take_over, inc_index, store_at,
  ensure_remaining_size,
}

-- `g_io_channel_write_chars` and the flush: an error of one of the two, with how many bytes the
-- channel has accepted before it, or how many bytes were written.
pub data Answer : Type 0 where
  failed : ℕ → Answer
  took : ℕ → Answer

-- `channel` is what the channel has taken, and `data_event` whether `writeCb` waits for it.
pub record Writer : Type 0 where
  pub write_buf_list : List SmartBuffer
  pub data_event : Bool
  pub channel : Bytes

-- What stands between the index and the watermark.
abbrev pub unwritten : SmartBuffer → Bytes
unwritten b = take (b.watermark - b.index) (drop b.index b.buf)

unfoldable pub push : SmartBuffer → Writer → Writer
unfolding reset_index take_over
push b w = record w {
  write_buf_list = w.write_buf_list ++ (take_over (reset_index b)).0 ∷ [];
  data_event = true;
}

-- `writeBuf`: the bytes that the channel accepts, the buffer, what the method returns, and
-- `fullyWritten`. After an error the index stays where it was.
abbrev pub write_buf : Answer → SmartBuffer → Bytes × SmartBuffer × Bool × Bool
write_buf (failed n) b = (take n (unwritten b), b, false, false)
write_buf (took n) b = (take n (unwritten b), inc_index b n, true, n == b.watermark - b.index)

-- The loop of `writeCb`, which asks the channel once for each buffer.
unfoldable pub write_loop : (ℕ → Answer) → ℕ → List SmartBuffer → Bytes → Writer
write_loop answer i [] out = record { write_buf_list = []; data_event = false; channel = out }
write_loop answer i (b ∷ rest) out =
    let (bytes, c, success, fully_written) = write_buf (answer i) b in
    let next = write_loop answer (suc i) rest (out ++ bytes) in
    if not success
    then record { write_buf_list = c ∷ rest; data_event = false; channel = out ++ bytes }
    else if fully_written
    then next
    else record { write_buf_list = c ∷ rest; data_event = true; channel = out ++ bytes }

unfoldable pub write_cb : (ℕ → Answer) → Writer → Writer
unfolding write_loop
write_cb answer w = write_loop answer 0 w.write_buf_list w.channel

pub record Reader : Type 0 where
  pub pull_buf : SmartBuffer
  pub pull_remaining_size : ℕ

-- What a call of `readCb` ends in: the callback is called with the buffer, or more is to come.
pub data Read : Type 0 where
  delivered : SmartBuffer → Read
  more : Reader → Read

unfoldable pub pull : (Bytes → ℕ → Option Bytes) → ℕ → SmartBuffer → Outcome Reader
unfolding ensure_remaining_size reset_index
pull realloc size b =
    then_ok (ensure_remaining_size realloc b size)
      (λ c. ok (record { pull_buf = reset_index c; pull_remaining_size = size }))

-- The channel gives `bytes`.
unfoldable pub read_cb : Bytes → Reader → Outcome Read
unfolding store_at reset_index
read_cb bytes r = then_ok (store_at r.pull_buf r.pull_buf.index bytes) (λ c.
    let remaining = r.pull_remaining_size - length bytes in
    ok (
      if remaining == 0
      then delivered (reset_index c)
      else more (record { pull_buf = c; pull_remaining_size = remaining })))
