-- ===== src/Common/PipeTests.antt =====
-- The theorems on named pipes at concrete inputs.
use hatohol.Base.{ℕ, zero, suc, ◌++◌, ◌≡◌, List, [], ◌∷◌, arith, length, Bytes, codes}
use hatohol.Mlpl.SmartBuffer.Operations.{SmartBuffer, reset_index, inc_index}
use hatohol.Common.NamedPipe.{Answer, failed, took, push, write_cb}
use hatohol.Common.NamedPipe.Writes.{
  Action, pushes, writes, CanAct, run, new_writer, pending, messages, run-messages,
}

abbrev message : Bytes → SmartBuffer
message s = record { index = 1; buf = s; size = length s; watermark = 3 }

-- The channel takes the first buffer, one byte of the second, and the rest later, after an error.
abbrev first_answers : ℕ → Answer
first_answers zero = took 3
first_answers (suc i) = took 1

abbrev no_answer : ℕ → Answer
no_answer i = failed 0

abbrev then_two : ℕ → Answer
then_two i = took 2

abbrev actions : List Action
actions =
    pushes (message (codes "abcd"))
    ∷ pushes (message (codes "efgh"))
    ∷ writes first_answers
    ∷ writes no_answer
    ∷ writes then_two
    ∷ []

can_act : CanAct actions new_writer
unfolding push write_cb reset_index inc_index
can_act = omega arith

run-messages_example :
    (run actions new_writer).channel ++ pending (run actions new_writer).write_buf_list
    ≡ messages actions
run-messages_example = run-messages actions can_act
