-- ===== src/Mlpl/StateTests.antt =====
-- The theorems on the stateful parts of server/mlpl/src at concrete inputs.
use hatohol.Base.{
  ℕ, ◌≡◌, refl, true, false, ◌||◌, none, some, [], arith, ◌==◌, if◌then◌else◌, codes, contains,
}
use hatohol.Mlpl.ParsableString.Checker.{
  Arrays, SeparatorChecker, is_separator, set_alternative, add_separator,
  add_separator-set_alternative,
}
use hatohol.Mlpl.ParsableString.Parser.{ParsableString, read_word_of}
use hatohol.Mlpl.ParsableString.Reads.{Reads, read_word_of-Reads}

abbrev comma : ℕ
comma = 44

-- Checker 0 separates by spaces, checker 1 by commas.
abbrev arrays : Arrays
arrays i c = if i == 0 then contains (codes " ") c else contains (codes ",") c

abbrev spaces : SeparatorChecker
spaces = record {
  separator_array = 0;
  saved_array_for_alternative = none;
  allow_alternative = true;
}

abbrev commas : SeparatorChecker
commas = record {
  separator_array = 1;
  saved_array_for_alternative = none;
  allow_alternative = false;
}

add_separator-set_alternative_example :
    is_separator (add_separator arrays (set_alternative spaces commas) (codes ";")) commas 59
    ≡ (contains (codes ";") 59 || is_separator arrays commas 59)
add_separator-set_alternative_example =
    add_separator-set_alternative arrays spaces commas (codes ";") 59 refl (ground arith)
      (omega arith)

abbrev statement : ParsableString
statement = record {
  string = codes " select a";
  word = [];
  parsing_position = some (codes " select a");
  keep_parsing_position = false;
  pending_notify_separator = 0;
}

read_word_of-Reads_example :
    Reads
      (codes " ")
      (codes " select a")
      (read_word_of (codes " ") false statement).1
      (read_word_of (codes " ") false statement).0.parsing_position
read_word_of-Reads_example =
    read_word_of-Reads (codes " ") statement (codes " select a") (ground arith) refl (ground arith)
