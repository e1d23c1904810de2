-- ===== src/Server/ActionExecArgMaker/Machine.antt =====
-- The command line parser against a machine that reads one char at a time.
use mathlib.Core.Option
use hatohol.Base.{
  ℕ, zero, suc, ◌+◌, ◌≤◌, ◌<◌, ◌≡◌, refl, sym, ap, subst, ◌∙◌, inl, inr, true, false, ◌||◌, Option,
  none, some, List, [], ◌∷◌, ◌++◌, append-nil, append_assoc, arith, ◌==◌, if◌then◌else◌, Bool-cases,
  length, Bytes, c_str, contains, All,
}
use hatohol.Mlpl.ParsableString.Callback.{SeparatorCheckerWithCallback, callback_ops}
use hatohol.Mlpl.ParsableString.Callback
use hatohol.Mlpl.ParsableString.Parser.{ParsableString, finished, read_word}
use hatohol.Mlpl.ParsableString.Words.{
  Separates, scan, landed, resumed, reset, read_word-scan, IsText, IsText-c_str,
}
use hatohol.Mlpl.ParsableString.Parser
use hatohol.Server.ActionExecArgMaker.{
  Impl, Separator, reset_parser, pushback_curr_word, separator_callback, make_separator,
  append_word, exec_loop, make_exec_arg,
}

abbrev pub separators : Bytes
separators = b' ' ∷ b'\'' ∷ b'\\' ∷ []

-- A char that is no separator goes to the word.
abbrev pub put : Impl → ℕ → Impl
put s c = record s { curr_word = s.curr_word ++ c ∷ []; by_back_slash = false }

unfoldable pub step : Impl → ℕ → Impl
step s c = if contains separators c then separator_callback c s else put s c

unfoldable pub machine : Impl → Bytes → Impl
machine s [] = pushback_curr_word s
machine s (c ∷ r) = machine (step s c) r

abbrev with_word : Bytes → Impl → Impl
with_word w s = record s { curr_word = s.curr_word ++ w; by_back_slash = false }

-- `s`, when the unfinished word `w` has been read behind it.
abbrev extend : Bytes → Impl → Impl
extend [] s = s
extend (c ∷ w) s = with_word (c ∷ w) s

is_separator-make_separator :
    (s : Impl) (c : ℕ)
    → c < 0x100
    → callback_ops.is_separator c (make_separator s) ≡ (contains separators c, make_separator s)
unfolding make_separator callback_ops
is_separator-make_separator s c h = ground arith

notify-make_separator :
    (s : Impl) (c : ℕ)
    → contains separators c ≡ true
    → Callback.notify_passed_on_separator c (make_separator s)
      ≡ make_separator (separator_callback c s)
unfolding make_separator Callback.notify_passed_on_separator
notify-make_separator s c h = ground arith

append_word-make_separator :
    (s : Impl) (w : Bytes) → append_word w (make_separator s) ≡ make_separator (with_word w s)
unfolding make_separator
append_word-make_separator s w = refl

arg-make_separator : (s : Impl) → (make_separator s).arg ≡ s
unfolding make_separator
arg-make_separator s = refl

separates : Separates callback_ops make_separator (contains separators) separator_callback
unfolding callback_ops
separates = record {
  asks = λ c a h. is_separator-make_separator a c h;
  passes = λ c a h. notify-make_separator a c h;
  finds = λ a. refl;
  finishes = λ n a. refl;
}

abbrev Scanned : Type 0
Scanned = Impl × Bytes × Option (ℕ × Bytes)

abbrev scan_from : Impl → Bytes → Bytes → Scanned
scan_from = scan (contains separators) separator_callback

-- The machine on `r` ends with the arguments `target`, when the loop goes on from a scan of `r`.
abbrev Resumes : List Bytes → Bytes → Scanned → Type 0
Resumes target r (a, word, none) = (pushback_curr_word (with_word word a)).arg_vect ≡ target
Resumes target r (a, word, some (c, rest)) =
    ((machine (separator_callback c (with_word word a)) rest).arg_vect ≡ target)
    × (contains separators c ≡ true)
    × (length rest < length r)
    × IsText rest

Resumes-longer :
    (r : Bytes) (ts : List Bytes) (c : ℕ) (t : Scanned) → Resumes ts r t → Resumes ts (c ∷ r) t
Resumes-longer r ts c (a, word, none) h = h
Resumes-longer r ts c (a, word, some (d, rest)) h = (h.0, h.1, omega arith, h.3)

step-separator :
    (s : Impl) (c : ℕ) → contains separators c ≡ true → step s c ≡ separator_callback c s
unfolding step
step-separator s c e = ground arith

step-other : (s : Impl) (c : ℕ) → contains separators c ≡ false → with_word (c ∷ []) s ≡ step s c
unfolding step
step-other s c e = ground arith

step-with_word :
    (a : Impl) (w : Bytes) (c : ℕ)
    → contains separators c ≡ false
    → with_word (w ++ c ∷ []) a ≡ step (with_word w a) c
unfolding step
step-with_word a w c e = ground (arith, append_assoc a.curr_word w (c ∷ []))

scan-Resumes :
    (a : Impl) (w r : Bytes)
    → IsText r
    → Resumes (machine (extend w a) r).arg_vect r (scan_from a w r)
unfolding scan machine step pushback_curr_word
scan-Resumes a [] [] h = ground (arith, append-nil a.curr_word)
scan-Resumes a (x ∷ w) [] h = refl
scan-Resumes a [] (c ∷ r) h = elim (Bool-cases (contains separators c)) [
  | inl e ↦
      let b = separator_callback c a in
      subst (λ u. Resumes (machine u r).arg_vect (c ∷ r) (scan_from a [] (c ∷ r)))
        (sym (step-separator a c e))
        (rw (e, scan)
          (Resumes-longer r (machine b r).arg_vect c (scan_from b [] r) (scan-Resumes b [] r h.1)))
  | inr e ↦
      let b = with_word (c ∷ []) a in
      subst (λ u. Resumes (machine u r).arg_vect (c ∷ r) (scan_from a [] (c ∷ r)))
        (step-other a c e)
        (rw (e, scan)
          (Resumes-longer r (machine b r).arg_vect c (scan_from a (c ∷ []) r)
            (scan-Resumes a (c ∷ []) r h.1)))
]
scan-Resumes a (x ∷ w) (c ∷ r) h = elim (Bool-cases (contains separators c)) [
  | inl e ↦
      rw (e, scan)
        (
          ap (λ t. (machine t r).arg_vect) (sym (step-separator (with_word (x ∷ w) a) c e)),
          e,
          omega arith,
          h.1,
        )
  | inr e ↦
      let v = x ∷ (w ++ c ∷ []) in
      subst (λ u. Resumes (machine u r).arg_vect (c ∷ r) (scan_from a (x ∷ w) (c ∷ r)))
        (step-with_word a (x ∷ w) c e)
        (rw (e, scan)
          (Resumes-longer r (machine (extend v a) r).arg_vect c (scan_from a v r)
            (scan-Resumes a v r h.1)))
]

args_of : Option Impl → Option (List Bytes)
args_of = Option.map (λ (impl : Impl). impl.arg_vect)

-- A loop that has finished needs one turn more.
exec_loop-finished :
    (f : ℕ) (p : ParsableString) (k : Separator)
    → p.parsing_position ≡ none
    → exec_loop (suc f) p k ≡ some (pushback_curr_word k.arg)
unfolding exec_loop finished
exec_loop-finished f p k e = ground arith

-- One turn of a loop that has not finished.
exec_loop-turn :
    (f : ℕ) (p : ParsableString) (a : Impl) (r : Bytes)
    → p.parsing_position ≡ some r
    → ((p.pending_notify_separator == 0) || contains separators p.pending_notify_separator) ≡ true
    → IsText r
    → let t =
        scan_from
          (resumed (contains separators) separator_callback p.pending_notify_separator a)
          []
          r in
      exec_loop (suc f) p (make_separator a)
      ≡ exec_loop f (landed (reset p) t.1 t.2) (make_separator (with_word t.1 t.0))
unfolding exec_loop finished
exec_loop-turn f p a r at pend h =
    let b = resumed (contains separators) separator_callback p.pending_notify_separator a in
    let t = scan_from b [] r in
    let passed : (if p.pending_notify_separator == 0
          then make_separator a
          else callback_ops.notify_passed_on_separator p.pending_notify_separator
              (make_separator a))
        ≡ make_separator b =
      ground (arith, separates.passes p.pending_notify_separator a) in
    ground (
      arith,
      at,
      read_word-scan callback_ops make_separator (contains separators) separator_callback separates
          p a r at passed h,
      append_word-make_separator t.0 t.1,
    )

separator-ne-zero : (c : ℕ) → contains separators c ≡ true → (c == 0) ≡ false
separator-ne-zero c e = ground arith

-- What the loop gives at fuel `f`, wherever it begins.
abbrev Runs : ℕ → Type 0
Runs f =
    (p : ParsableString) (a : Impl) (r : Bytes)
    → p.parsing_position ≡ some r
    → ((p.pending_notify_separator == 0) || contains separators p.pending_notify_separator) ≡ true
    → IsText r
    → length r + 2 ≤ f
    → args_of (exec_loop f p (make_separator a))
      ≡ some
          (machine (resumed (contains separators) separator_callback p.pending_notify_separator a)
            r).arg_vect

exec_loop-resumed :
    (f : ℕ)
    → Runs f
    → (p : ParsableString) (t : Scanned) (r : Bytes) (ts : List Bytes) → Resumes ts r t
    → length r + 1 ≤ f
    → args_of (exec_loop f (landed (reset p) t.1 t.2) (make_separator (with_word t.1 t.0)))
      ≡ some ts
unfolding args_of
exec_loop-resumed zero ih p t r ts g n = absurd (omega arith)
exec_loop-resumed (suc f) ih p (a, word, none) r ts g n = ground (
  arith,
  exec_loop-finished f (landed (reset p) word none) (make_separator (with_word word a)) refl,
  arg-make_separator (with_word word a),
)
exec_loop-resumed (suc f) ih p (a, word, some (c, rest)) r ts (run, sep, short, text) n = ground (
  arith,
  separator-ne-zero c sep,
  ih (landed (reset p) word (some (c, rest))) (with_word word a) rest refl (ground arith) text
      (omega arith),
  run,
)

exec_loop-machine : (f : ℕ) → Runs f
exec_loop-machine zero p a r at pend h n = absurd (omega arith)
exec_loop-machine (suc f) p a r at pend h n =
    let a' = resumed (contains separators) separator_callback p.pending_notify_separator a in
    ap args_of (exec_loop-turn f p a r at pend h)
    ∙ exec_loop-resumed f (exec_loop-machine f) p (scan_from a' [] r) r _ (scan-Resumes a' [] r h)
        (omega arith)

-- The loop over the words returns, and its arguments are those of the machine that reads the
-- command one char at a time, up to the first NUL. The command is a string of bytes.
pub make_exec_arg-machine :
    (arg_vect : List Bytes) (cmd : Bytes)
    → All (λ c. c < 0x100) cmd
    → make_exec_arg arg_vect cmd ≡ some (machine (reset_parser arg_vect) (c_str cmd)).arg_vect
unfolding make_exec_arg args_of Parser.init
make_exec_arg-machine arg_vect cmd h =
    exec_loop-machine (length (c_str cmd) + 2) (Parser.init cmd) (reset_parser arg_vect) (c_str cmd)
      refl refl (IsText-c_str cmd h) (omega arith)
