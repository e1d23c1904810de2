-- ===== src/Mlpl/ParsableString/Parser.antt =====
-- `ParsableString`. A parsing position is the rest of the text from there on, `none` for NULL.
use hatohol.Base.{
  ℕ, ◌+◌, Bool, true, false, not, Option, none, some, [], ◌∷◌, ltb, ◌==◌, if◌then◌else◌, length,
  take, Bytes, c_str,
}
use hatohol.Mlpl.ParsableString.Checker.{SeparatorArray, CheckerOps, is_separator_in, make_array}

pub record ParsableString : Type 0 where
  pub string : Bytes
  pub word : Bytes
  pub parsing_position : Option Bytes
  pub keep_parsing_position : Bool
  pub pending_notify_separator : ℕ

-- `m_readWord` and `m_keepParsingPosition` are set before they are read.
unfoldable pub init : Bytes → ParsableString
init str = record {
  string = str;
  word = [];
  parsing_position = some (c_str str);
  keep_parsing_position = false;
  pending_notify_separator = 0;
}

unfoldable pub finished : ParsableString → Bool
finished p = elim p.parsing_position [ none ↦ true | some _ ↦ false ]

-- The char pointer behind `ptr`.
abbrev pub next : Bytes → Bytes
next [] = []
next (c ∷ ptr) = ptr

-- The return value of a `WordFoundActionFunc` is whether the parse ends at once.
abbrev pub FoundFunc : Type 0
FoundFunc = Bytes → ℕ → Bytes → ParsableString → Bool × ParsableString

unfoldable pub read_word_action : FoundFunc
read_word_action word_head length curr_ptr p =
    let q = record p { word = take length word_head } in
    (
      true,
      if not p.keep_parsing_position
          then record q { parsing_position = some (next curr_ptr) }
          else q,
    )

unfoldable pub read_word_finish : ParsableString → ParsableString
read_word_finish p = if not p.keep_parsing_position then record p { parsing_position = none } else p

module _ {S : Type 0} (ops : CheckerOps S) where
  open ops use {is_separator, notify_found, notify_finish, notify_passed_on_separator}

  module _ (found_func : FoundFunc) (finish_func : ParsableString → ParsableString) where
    -- What stands behind the loop.
    unfoldable pub parse_end : ParsableString → S → ℕ → Bytes → ParsableString × S
    parse_end p s len head =
        if ltb 0 len
        then (finish_func (found_func head len [] p).1, notify_finish len (notify_found s))
        else (finish_func p, notify_finish len s)

    unfoldable pub parse_loop : ParsableString → S → ℕ → Bytes → Bytes → ParsableString × S
    unfolding parse_end
    parse_loop p s len head [] = parse_end p s len head
    parse_loop p s len head (c ∷ ptr) =
        let (is_sep, s1) = is_separator c s in
        let s2 = notify_found s1 in
        let (exit_flag, q) = found_func head len (c ∷ ptr) p in
        let longer = parse_loop p s1 (len + 1) head ptr in
        let again = parse_loop q (notify_passed_on_separator c s2) 0 ptr ptr in
        let skipped = parse_loop p (notify_passed_on_separator c s1) len ptr ptr in
        if not is_sep
        then longer
        else if ltb 0 len
        then (if exit_flag then (record q { pending_notify_separator = c }, s2) else again)
        else skipped

    unfoldable pub generic_parse : Bytes → ParsableString → S → ParsableString × S
    unfolding parse_loop
    generic_parse target p s =
        if p.pending_notify_separator == 0
        then parse_loop p s 0 target target
        else parse_loop (record p { pending_notify_separator = 0 })
            (notify_passed_on_separator p.pending_notify_separator s) 0 target target

  -- The parser, the checker and the word behind a call of `readWord`.
  unfoldable pub read_word : Bool → ParsableString → S → ParsableString × S × Bytes
  unfolding generic_parse read_word_action read_word_finish
  read_word keep p s = elim p.parsing_position [
    | none ↦ (p, s, [])
    | some target ↦
        let (q, t) =
          generic_parse read_word_action read_word_finish target
            (record p { keep_parsing_position = keep; word = [] }) s in
        (q, t, c_str q.word)
  ]

-- A plain `SeparatorChecker`, whose notifications do nothing.
unfoldable pub plain_ops : CheckerOps SeparatorArray
unfolding is_separator_in
plain_ops = record {
  is_separator = λ c a. (is_separator_in a c, a);
  notify_found = λ a. a;
  notify_finish = λ len a. a;
  notify_passed_on_separator = λ c a. a;
}

-- `readWord(separators, keepParsingPosition)`.
unfoldable pub read_word_of : Bytes → Bool → ParsableString → ParsableString × Bytes
unfolding read_word plain_ops make_array
read_word_of separators keep p =
    let (q, _, w) = read_word plain_ops keep p (make_array separators) in (q, w)
