-- ===== src/Mlpl/BufferTests.antt =====
-- The theorems on server/mlpl/src/SmartBuffer.cc at concrete inputs.
use hatohol.Base.{
  ℕ, zero, suc, ap, ◌+◌, ◌≤◌, ◌≡◌, refl, Option, some, List, [], ◌∷◌, arith, length, take,
  replicate, Bytes, codes,
}
use hatohol.Mlpl.SmartBuffer.Block.{to_bytes}
use hatohol.Mlpl.SmartBuffer.Operations.{SmartBuffer, init, ok}
use hatohol.Mlpl.SmartBuffer.Appends.{Reallocates, Appended}
use hatohol.Mlpl.SmartBuffer.Sequence.{
  Write, block, number, payloads, write_all, write_all-Appended,
}
use hatohol.Mlpl.SmartBuffer.Numbers.{numbers, ReadsBack, read_all-write_all}
use hatohol.Mlpl.SmartBuffer.Strings.{insert_string, extract_string}
use hatohol.Mlpl.SmartBuffer.Extract.{extract_string-insert_string}
use hatohol.Server.ResidentCommunicator.{send_parameters}
use hatohol.Server.ResidentCommunicator.Parameters.{Arrives, send_parameters-Arrives}
use hatohol.Common.NamedPipe.{pull}
use hatohol.Common.NamedPipe.Reads.{total, PullDelivers, pull-read_pieces}

-- A `realloc` that never fails and fills with zeros.
abbrev resize : Bytes → ℕ → Bytes
resize [] n = replicate n 0
resize (x ∷ b) zero = []
resize (x ∷ b) (suc n) = x ∷ resize b n

length-replicate : (n x : ℕ) → length (replicate n x) ≡ n
length-replicate zero x = refl
length-replicate (suc n) x = omega (arith, length-replicate n x)

length-resize : (b : Bytes) (n : ℕ) → length (resize b n) ≡ n
length-resize [] n = length-replicate n 0
length-resize (x ∷ b) zero = refl
length-resize (x ∷ b) (suc n) = omega (arith, length-resize b n)

take-resize : (k : ℕ) (b : Bytes) (n : ℕ) → k ≤ length b → k ≤ n → take k (resize b n) ≡ take k b
take-resize zero b n h k = refl
take-resize (suc i) [] n h k = ground arith
take-resize (suc i) (x ∷ b) zero h k = ground arith
take-resize (suc i) (x ∷ b) (suc n) h k = ap (◌∷◌ x) (take-resize i b n (omega arith) (omega arith))

abbrev grow : Bytes → ℕ → Option Bytes
grow b n = some (resize b n)

Reallocates-grow : Reallocates grow
unfolding Reallocates
Reallocates-grow b n moved e =
    (ground (arith, length-resize b n), λ k h m. ground (arith, take-resize k b n h m))

abbrev writes : List Write
writes = number 2 772 ∷ block (codes "abc") ∷ number 1 9 ∷ []

write_all-Appended_example : Appended init (payloads writes) (write_all grow init writes)
write_all-Appended_example =
    write_all-Appended grow Reallocates-grow init writes (unfold init in refl)
      (unfold init in omega arith) (unfold init in omega arith) (unfold init in omega arith)
      (unfold init to_bytes in omega arith)

abbrev sizes : List (ℕ × ℕ)
sizes = (2, 772) ∷ (1, 9) ∷ (4, 70000) ∷ []

read_all-write_all_example : ReadsBack sizes (write_all grow init (numbers sizes))
read_all-write_all_example =
    read_all-write_all grow Reallocates-grow sizes (ground arith) (unfold to_bytes in omega arith)

abbrev empty : SmartBuffer
empty = record { index = 2; buf = replicate 20 0; size = 20; watermark = 2 }

extract_string-insert_string_example :
    (c : SmartBuffer) × (insert_string empty (codes "abc") 12
      ≡ ok (c, 12 + length (codes "abc") + 1))
    × (extract_string c 2 ≡ ok (codes "abc"))
extract_string-insert_string_example =
    extract_string-insert_string empty (codes "abc") 12 refl (omega arith) (omega arith)
      (omega arith) (omega arith) (omega arith)

init_block : length init.buf ≡ init.size
unfolding init
init_block = refl

init_empty : (init.index ≡ 0) × (init.size ≡ 0)
unfolding init
init_empty = (refl, refl)

pull-read_pieces_example :
    PullDelivers
      (codes "abc" ∷ [])
      (codes "de")
      (pull grow (total (codes "abc" ∷ []) + length (codes "de")) init)
pull-read_pieces_example =
    pull-read_pieces grow (codes "abc" ∷ []) (codes "de") init Reallocates-grow init_block
      (omega (arith, init_block, init_empty)) (omega (arith, init_empty))
      (omega (arith, init_empty)) (omega arith)

send_parameters-Arrives_example :
    Arrives (codes "module.so") (codes "-v") (send_parameters grow (codes "module.so") (codes "-v"))
send_parameters-Arrives_example =
    send_parameters-Arrives (codes "module.so") (codes "-v") grow Reallocates-grow (omega arith)
      (omega arith)
