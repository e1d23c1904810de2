-- ===== src/Server/Tests.antt =====
-- The theorems on server/src at concrete inputs.
use hatohol.Base.{
  ◌||◌, ◌&&◌, not, ◌==◌, none, ℕ, ◌+◌, ◌%◌, ◌^◌, ◌≡◌, refl, true, some, List, [], ◌∷◌, ◌++◌, arith,
  map, if◌then◌else◌, Bytes, codes, c_str,
}
use hatohol.Base.Int.{eqb_ℤ, pos, ◌+ℤ◌, ltb_ℤ}
use hatohol.Mlpl.StringUtils.Split.{join}
use hatohol.Mlpl.SmartTime.{SmartTime}
use hatohol.Mlpl.SmartTime.Laws.{IsNormal, nanos}
use hatohol.Server.ActionExecArgMaker.{reset_parser, make_exec_arg}
use hatohol.Server.ActionExecArgMaker.Machine.{machine, make_exec_arg-machine}
use hatohol.Server.ActionExecArgMaker.Quoting.{quote, make_exec_arg-quote}
use hatohol.Server.StatisticsCounter.{StatisticsCounter, init, add_number, get}
use hatohol.Server.StatisticsCounter.Laws.{
  IsValid, Call, adds, gets, run, run-init-IsValid, add_number-get,
}
use hatohol.Server.OperationPrivilege.{
  has, add_flag, remove_flag, set_user_id, user_id_system, has-flags, set_user_id_lem,
}
use hatohol.Server.DbTermCodec.{
  read_mysql_literal, doubled, read_mysql_literal-enc, enc, read_literal, read_literal-enc,
}

make_exec_arg-machine_example :
    make_exec_arg [] (codes "ls 'a b' \\'c")
    ≡ some (machine (reset_parser []) (c_str (codes "ls 'a b' \\'c"))).arg_vect
make_exec_arg-machine_example = make_exec_arg-machine [] (codes "ls 'a b' \\'c") (ground arith)

abbrev args : List Bytes
args = codes "say" ∷ codes "it's \\ ok" ∷ []

make_exec_arg-quote_example : make_exec_arg [] (join b' ' (map quote args)) ≡ some ([] ++ args)
make_exec_arg-quote_example =
    make_exec_arg-quote [] (codes "say") (codes "it's \\ ok" ∷ []) (ground arith)

read_literal-enc_example :
    read_literal (enc (codes "it's") ++ codes ",3") ≡ some (c_str (codes "it's"), codes ",3")
read_literal-enc_example = read_literal-enc (codes "it's") (codes ",3") refl

abbrev second : ℕ → SmartTime
second n = record { tv_sec = pos n; tv_nsec = pos 0 }

second-IsNormal : (n : ℕ) → IsNormal (second n)
second-IsNormal n = omega arith

-- A call within the slot, one an interval later, one much later, and one with the clock set back.
abbrev calls : List (SmartTime × Call)
calls = (second 102, adds 5) ∷ (second 111, adds 7) ∷ (second 500, gets) ∷ (second 90, adds 1) ∷ []

ten_seconds : ltb_ℤ (pos 0) (nanos (second 10)) ≡ true
unfolding nanos
ten_seconds = refl

run-init-IsValid_example : IsValid (run (init (second 100) (second 10)) calls)
run-init-IsValid_example =
    run-init-IsValid (second 100) (second 10) calls (omega arith) (omega arith) ten_seconds
      (ground arith)

abbrev running : StatisticsCounter
running = init (second 100) (second 10)

add_number-get_example :
    let t = nanos (second 112) in
    let end = nanos running.curr_slot_end_time in
    let r = get (second 112) (add_number (second 112) 4 running) in
    (r.2.number ≡ (if ltb_ℤ t end then (running.curr_slot.number + 4) % 2 ^ 64 else 4))
    × (r.1.number ≡ (
        if ltb_ℤ t end
        then running.prev_slot.number
        else if ltb_ℤ t (end +ℤ nanos running.interval)
        then running.curr_slot.number
        else 0))
add_number-get_example =
    add_number-get (second 112) 4 running (omega arith)
      (unfold run in
        run-init-IsValid (second 100) (second 10) [] (omega arith) (omega arith) ten_seconds tt)
      (omega arith)

read_mysql_literal-enc_example :
    read_mysql_literal (enc (codes "x" ++ (b'\\' ∷ b'\'' ∷ codes ",1")))
    ≡ some (codes "x" ++ b'\'' ∷ [], 44 ∷ (doubled (c_str (codes "1")) ++ b'\'' ∷ []))
read_mysql_literal-enc_example =
    read_mysql_literal-enc (codes "x") 44 (codes "1") (ground arith) refl (ground arith)

has-flags_example :
    (has (add_flag 5 1) 2 ≡ (has 5 2 || 2 == 1))
    × (has (remove_flag 5 1) 2 ≡ (has 5 2 && not (2 == 1)))
has-flags_example = has-flags 5 1 2 (omega arith) (omega arith)

set_user_id_lem_example :
    (has (set_user_id (λ _. none) user_id_system).flags 27 ≡ true)
    × (has (set_user_id (λ _. none) (pos 9)).flags 27 ≡ eqb_ℤ (pos 9) user_id_system)
set_user_id_lem_example = set_user_id_lem (λ _. none) (pos 9) 27 (omega arith) refl
