-- ===== src/Server/ActionExecArgMaker/Quoting.antt =====
-- Every argument vector can be written as a command line, and how a resident's command is cut.
use hatohol.Base.{
  ℕ, zero, suc, ◌<◌, ◌≡◌, ◌≢◌, refl, sym, ap, ◌∙◌, ◌⊎◌, inl, inr, true, false, ◌||◌, none, some,
  List, [], ◌∷◌, ◌++◌, map, append-nil, append_assoc, arith, ◌==◌, if◌then◌else◌, Bool-cases,
  Option-cases, take, drop, take-append-drop, Bytes, contains, All, All-append,
}
use hatohol.Mlpl.ParsableString.Words.{IsText, c_str-text}
use hatohol.Mlpl.StringUtils.Split.{join}
use hatohol.Mlpl.StringUtils.Strip.{
  IsStripped, strip-IsStripped, starts_with_space, ends_with_space,
}
use hatohol.Server.ActionExecArgMaker.{
  Impl, reset_parser, pushback_curr_word, separator_callback, make_exec_arg, find_space,
  parse_resident_command,
}
use hatohol.Server.ActionExecArgMaker.Machine.{step, machine, make_exec_arg-machine}

-- A backslash in front of every quotation mark and every backslash.
pub escape : Bytes → Bytes
escape [] = []
escape (c ∷ w) = if c == b'\'' || c == b'\\' then b'\\' ∷ c ∷ escape w else c ∷ escape w

pub quote : Bytes → Bytes
quote w = b'\'' ∷ (escape w ++ b'\'' ∷ [])

-- An argument is not empty and holds no NUL.
abbrev pub IsArg : Bytes → Type 0
IsArg w = (w ≢ []) × IsText w

abbrev quoted : List Bytes → Bytes
quoted ws = join b' ' (map quote ws)

abbrev with_more : Bytes → Impl → Impl
with_more w s = record s { curr_word = s.curr_word ++ w }

machine-escape :
    (s : Impl) (w r : Bytes)
    → s.in_quot ≡ true
    → s.by_back_slash ≡ false
    → machine s (escape w ++ r) ≡ machine (with_more w s) r
unfolding machine step separator_callback escape
machine-escape s [] r q b = ground (arith, append-nil s.curr_word)
machine-escape s (c ∷ w) r q b =
    ground
      (arith, machine-escape (with_more (c ∷ []) s) w r q b, append_assoc s.curr_word (c ∷ []) w)

machine-quote :
    (s : Impl) (w r : Bytes)
    → s.in_quot ≡ false
    → s.by_back_slash ≡ false
    → machine s (quote w ++ r) ≡ machine (with_more w s) r
unfolding machine step separator_callback quote
machine-quote s w r q b = ground (
  arith,
  append_assoc (escape w) (b'\'' ∷ []) r,
  machine-escape (record s { in_quot = true }) w (b'\'' ∷ r) refl b,
)

machine-quoted :
    (v : List Bytes) (w : Bytes) (ws : List Bytes)
    → All IsArg (w ∷ ws)
    → (machine (reset_parser v) (quoted (w ∷ ws))).arg_vect ≡ v ++ w ∷ ws
unfolding machine step separator_callback reset_parser pushback_curr_word join
machine-quoted v [] ws h = absurd (h.0.0 refl)
machine-quoted v (c ∷ w) [] h =
    ground (arith, machine-quote (reset_parser v) (c ∷ w) [] refl refl, append-nil (quote (c ∷ w)))
machine-quoted v (c ∷ w) (u ∷ ws) h = ground (
  arith,
  machine-quote (reset_parser v) (c ∷ w) (b' ' ∷ quoted (u ∷ ws)) refl refl,
  machine-quoted (v ++ (c ∷ w) ∷ []) u ws h.1,
  append_assoc v ((c ∷ w) ∷ []) (u ∷ ws),
)

-- A char that needs no care.
abbrev IsChar : ℕ → Type 0
IsChar c = (c ≢ 0) × (c < 0x100)

escape-IsText : (w : Bytes) → IsText w → IsText (escape w)
unfolding escape
escape-IsText [] h = tt
escape-IsText (c ∷ w) h = elim (Bool-cases (c == b'\'' || c == b'\\')) [
  | inl e ↦ rw (e, escape) (omega arith, (h.0, escape-IsText w h.1))
  | inr e ↦ rw (e, escape) (h.0, escape-IsText w h.1)
]

quote-IsText : (w : Bytes) → IsText w → IsText (quote w)
unfolding quote
quote-IsText w h =
    (omega arith, All-append IsChar (escape w) (b'\'' ∷ []) (escape-IsText w h) (omega arith))

quoted-IsText : (ws : List Bytes) → All IsArg ws → IsText (quoted ws)
unfolding join
quoted-IsText [] h = tt
quoted-IsText (w ∷ []) h = quote-IsText w h.0.1
quoted-IsText (w ∷ u ∷ ws) h =
    All-append IsChar (quote w) (b' ' ∷ quoted (u ∷ ws)) (quote-IsText w h.0.1)
      (omega arith, quoted-IsText (u ∷ ws) h.1)

text-IsBytes : (w : Bytes) → IsText w → All (λ c. c < 0x100) w
text-IsBytes [] h = tt
text-IsBytes (c ∷ w) h = (h.0.1, text-IsBytes w h.1)

-- Arguments that are not empty, in quotation marks, with a backslash in front of every quotation
-- mark and backslash and a space between each two, come back unchanged behind the strings that
-- the vector held before. There is at least one, and no NUL.
pub make_exec_arg-quote :
    (arg_vect : List Bytes) (w : Bytes) (ws : List Bytes)
    → All IsArg (w ∷ ws)
    → make_exec_arg arg_vect (join b' ' (map quote (w ∷ ws))) ≡ some (arg_vect ++ w ∷ ws)
make_exec_arg-quote v w ws h =
    let text = quoted-IsText (w ∷ ws) h in
    make_exec_arg-machine v (quoted (w ∷ ws)) (text-IsBytes (quoted (w ∷ ws)) text)
    ∙ rw (c_str-text (quoted (w ∷ ws)) text) (ap some (machine-quoted v w ws h))

-- A resident's command is its path, up to the first space, and the option.
pub record IsCut (command path option : Bytes) : Type 0 where
  pub path_has_no_space : contains path b' ' ≡ false
  pub rest : Bytes
  pub splits : command ≡ path ++ rest
  pub rest_begins : (rest ≡ []) ⊎ ((t : Bytes) × (rest ≡ b' ' ∷ t))
  pub option_stripped : IsStripped rest option

find_space-none : (s : Bytes) → find_space s ≡ none → contains s b' ' ≡ false
unfolding find_space
find_space-none [] e = refl
find_space-none (c ∷ s) e = ground (arith, find_space-none s)

find_space-some : (s : Bytes) (n : ℕ) → find_space s ≡ some n → contains (take n s) b' ' ≡ false
unfolding find_space
find_space-some [] n e = ground arith
find_space-some (c ∷ s) zero e = refl
find_space-some (c ∷ s) (suc n) e = ground (arith, find_space-some s n)

find_space-drop : (s : Bytes) (n : ℕ) → find_space s ≡ some n → (t : Bytes) × (drop n s ≡ b' ' ∷ t)
unfolding find_space
find_space-drop [] n e = ground arith
find_space-drop (c ∷ s) zero e = (s, ground arith)
find_space-drop (c ∷ s) (suc n) e = find_space-drop s n (ground arith)

IsStripped-nil : IsStripped [] []
unfolding starts_with_space ends_with_space
IsStripped-nil = record { before = 0; after = 0; splits = refl; first = refl; last = refl }

-- The path of a resident's command reaches to its first space, or to its end, and the option is
-- what stands behind the path, without the spaces at its two ends.
parse_resident_command-IsCut :
    (command : Bytes)
    → IsCut command (parse_resident_command command).0 (parse_resident_command command).1
unfolding parse_resident_command
parse_resident_command-IsCut s = elim (Option-cases (find_space s)) [
  | inl e ↦
      rw (e, parse_resident_command)
        (record {
          path_has_no_space = find_space-none s e;
          rest = [];
          splits = sym (append-nil s);
          rest_begins = inl refl;
          option_stripped = IsStripped-nil;
        })
  | inr (n, e) ↦
      rw (e, parse_resident_command)
        (record {
          path_has_no_space = find_space-some s n e;
          rest = drop n s;
          splits = sym (take-append-drop n s);
          rest_begins = inr (find_space-drop s n e);
          option_stripped = strip-IsStripped (drop n s);
        })
]
