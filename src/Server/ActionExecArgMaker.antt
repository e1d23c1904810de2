-- ===== src/Server/ActionExecArgMaker.antt =====
-- server/src/ActionExecArgMaker.cc: an action's command line as an argument vector.
pub mod Machine
pub mod Quoting
use hatohol.Base.{
  ℕ, zero, suc, ◌+◌, Bool, true, false, not, Option, none, some, List, [], ◌∷◌, ◌++◌, map, ◌==◌,
  if◌then◌else◌, length, take, drop, Bytes, c_str,
}
use mathlib.Core.Option
use hatohol.Mlpl.StringUtils.Strip.{strip_both_ends_spaces}
use hatohol.Mlpl.ParsableString.Callback.{SeparatorCheckerWithCallback, callback_ops}
use hatohol.Mlpl.ParsableString.Callback
use hatohol.Mlpl.ParsableString.Parser.{ParsableString, finished, read_word}
use hatohol.Mlpl.ParsableString.Parser

-- The members of `Impl` that the separator's callbacks see.
pub record Impl : Type 0 where
  pub in_quot : Bool
  pub by_back_slash : Bool
  pub curr_word : Bytes
  pub arg_vect : List Bytes

-- The vector that the caller passes may hold strings already.
unfoldable pub reset_parser : List Bytes → Impl
reset_parser arg_vect = record {
  in_quot = false;
  by_back_slash = false;
  curr_word = [];
  arg_vect = arg_vect;
}

unfoldable pub pushback_curr_word : Impl → Impl
pushback_curr_word impl = elim impl.curr_word [
  | [] ↦ impl
  | c ∷ w ↦ record impl { arg_vect = impl.arg_vect ++ (c ∷ w) ∷ []; curr_word = [] }
]

unfoldable pub separator_callback : ℕ → Impl → Impl
unfolding pushback_curr_word
separator_callback sep impl =
    if sep == b' '
    then (if impl.in_quot
        then record impl { curr_word = impl.curr_word ++ b' ' ∷ []; by_back_slash = false }
        else record (pushback_curr_word impl) { by_back_slash = false })
    else if sep == b'\''
    then (if impl.by_back_slash
        then record impl { curr_word = impl.curr_word ++ b'\'' ∷ []; by_back_slash = false }
        else record impl { in_quot = not impl.in_quot; by_back_slash = false })
    else if sep == b'\\'
    then (if impl.by_back_slash
        then record impl { curr_word = impl.curr_word ++ b'\\' ∷ []; by_back_slash = false }
        else record impl { by_back_slash = true })
    else impl

abbrev Separator : Type 0
Separator = SeparatorCheckerWithCallback Impl

-- The constructor: the separator's three callbacks. The object that they change is set by
-- `resetParser`.
unfoldable pub make_separator : Impl → Separator
unfolding Callback.init Callback.set_callback
make_separator impl =
    let k0 = Callback.init (b' ' ∷ b'\'' ∷ b'\\' ∷ []) impl in
    let k1 = (Callback.set_callback b' ' separator_callback k0).1 in
    let k2 = (Callback.set_callback b'\'' separator_callback k1).1 in
    (Callback.set_callback b'\\' separator_callback k2).1

-- `currWord += word; byBackSlash = false`.
abbrev append_word : Bytes → Separator → Separator
append_word word k = record k {
  arg = record (k.arg) { curr_word = k.arg.curr_word ++ word; by_back_slash = false };
}

-- The `while` loop; `none` means that the fuel ran out.
unfoldable pub exec_loop : ℕ → ParsableString → Separator → Option Impl
exec_loop zero parsable k = none
exec_loop (suc fuel) parsable k =
    let (parsable', k', word) = read_word callback_ops false parsable k in
    let rest = exec_loop fuel parsable' (append_word word k') in
    if finished parsable then some (pushback_curr_word k.arg) else rest

-- Every turn but the last two reads past a char of the command.
unfoldable pub make_exec_arg : List Bytes → Bytes → Option (List Bytes)
unfolding reset_parser make_separator exec_loop
make_exec_arg arg_vect cmd =
    Option.map (λ (impl : Impl). impl.arg_vect)
      (exec_loop (length (c_str cmd) + 2) (Parser.init cmd)
        (make_separator (reset_parser arg_vect)))

-- `command.find(' ')`.
find_space : Bytes → Option ℕ
find_space [] = none
find_space (c ∷ s) = if c == b' ' then some 0 else Option.map (λ n. n + 1) (find_space s)

-- The path and the option.
unfoldable pub parse_resident_command : Bytes → Bytes × Bytes
unfolding find_space
parse_resident_command command = elim (find_space command) [
  | none ↦ (command, [])
  | some pos ↦ (take pos command, strip_both_ends_spaces (drop pos command))
]
