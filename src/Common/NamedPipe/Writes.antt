-- ===== src/Common/NamedPipe/Writes.antt =====
-- What is written to a pipe.
use hatohol.Base.{
  ℕ, zero, suc, ◌+◌, ◌-◌, ◌%◌, ◌≤◌, ◌<◌, ◌≡◌, refl, sym, ap, subst, ◌∙◌, Bool, true, false, not,
  List, [], ◌∷◌, ◌++◌, append-nil, append_assoc, arith, ltb, ◌==◌, if◌then◌else◌, if-false, length,
  take, drop, take-append-drop, Bytes, All, All-append,
}
use hatohol.Mlpl.SmartBuffer.Block.{size_mod}
use hatohol.Mlpl.SmartBuffer.Operations.{
  SmartBuffer, reset_index, take_over, hand_over, inc_index, set_watermark_if_needed,
}
use package.hatohol.Common.NamedPipe.{
  Answer, failed, took, Writer, unwritten, push, write_buf, write_loop, write_cb,
}

drop_nil : (n : ℕ) → drop n (let xs : Bytes = [] in xs) ≡ []
drop_nil zero = refl
drop_nil (suc n) = refl

take_nil : (n : ℕ) → take n (let xs : Bytes = [] in xs) ≡ []
take_nil zero = refl
take_nil (suc n) = refl

take_zero : (xs : Bytes) → take 0 xs ≡ []
take_zero [] = refl
take_zero (x ∷ xs) = refl

drop-drop : (i n : ℕ) (xs : Bytes) → drop n (drop i xs) ≡ drop (i + n) xs
drop-drop zero n xs = let e : 0 + n ≡ n = omega arith in rw e refl
drop-drop (suc i) n [] = drop_nil n ∙ sym (drop_nil (suc i + n))
drop-drop (suc i) n (x ∷ xs) =
    let e : suc i + n ≡ suc (i + n) = omega arith in rw e (drop-drop i n xs)

drop-take : (n m : ℕ) (xs : Bytes) → drop n (take m xs) ≡ take (m - n) (drop n xs)
drop-take zero m xs = let e : m - 0 ≡ m = omega arith in rw e refl
drop-take (suc n) m [] = ap (drop (suc n)) (take_nil m) ∙ sym (take_nil (m - suc n))
drop-take (suc n) zero (x ∷ xs) =
    let e : 0 - suc n ≡ 0 = omega arith in rw e (sym (take_zero (drop n xs)))
drop-take (suc n) (suc m) (x ∷ xs) =
    let e : suc m - suc n ≡ m - n = omega arith in rw e (drop-take n m xs)

-- A buffer's index is not behind its watermark, which is not behind its block.
abbrev pub IsReady : SmartBuffer → Type 0
IsReady b = (b.index ≤ b.watermark) × (b.watermark ≤ length b.buf) × (length b.buf < size_mod)

inc_index-IsReady :
    (b : SmartBuffer) (n : ℕ)
    → IsReady b
    → n ≤ b.watermark - b.index
    → inc_index b n ≡ record b { index = b.index + n }
unfolding inc_index set_watermark_if_needed
inc_index-IsReady b n (i, w, l) h =
    let e : (b.index + n) % size_mod ≡ b.index + n = omega arith in
    rw e (if-false {b = ltb b.watermark (b.index + n)} _ _ (ground arith))

unwritten-inc_index :
    (b : SmartBuffer) (n : ℕ)
    → IsReady b
    → n ≤ b.watermark - b.index
    → take n (unwritten b) ++ unwritten (inc_index b n) ≡ unwritten b
unwritten-inc_index b n r h =
    let e : b.watermark - (b.index + n) ≡ b.watermark - b.index - n = omega arith in
    ap (λ c. take n (unwritten b) ++ unwritten c) (inc_index-IsReady b n r h)
    ∙ ap (λ m. take n (unwritten b) ++ take m (drop (b.index + n) b.buf)) e
    ∙ ap (λ l. take n (unwritten b) ++ take (b.watermark - b.index - n) l)
        (sym (drop-drop b.index n b.buf))
    ∙ ap (λ l. take n (unwritten b) ++ l)
        (sym (drop-take n (b.watermark - b.index) (drop b.index b.buf)))
    ∙ take-append-drop n (unwritten b)

take_all : (n : ℕ) (xs : Bytes) → length xs ≤ n → take n xs ≡ xs
take_all zero [] h = refl
take_all zero (x ∷ xs) h = absurd (omega arith)
take_all (suc n) [] h = refl
take_all (suc n) (x ∷ xs) h = ap (◌∷◌ x) (take_all n xs (omega arith))

length-take_le : (n : ℕ) (xs : Bytes) → length (take n xs) ≤ n
length-take_le zero [] = omega arith
length-take_le zero (x ∷ xs) = omega arith
length-take_le (suc n) [] = omega arith
length-take_le (suc n) (x ∷ xs) = omega (arith, length-take_le n xs)

-- What is not written yet, in order.
abbrev pub pending : List SmartBuffer → Bytes
pending [] = []
pending (b ∷ bs) = unwritten b ++ pending bs

-- The channel does not take more than it is given, and has accepted nothing before an error.
abbrev pub IsPossible : (ℕ → Answer) → ℕ → List SmartBuffer → Type 0
IsPossible answer i [] = Unit {0}
IsPossible answer i (b ∷ bs) = elim (answer i) [
  | failed n ↦ n ≡ 0
  | took n ↦ (n ≤ b.watermark - b.index) × IsPossible answer (suc i) bs
]

-- Nothing of `all` is lost.
abbrev Sends : Bytes → Writer → Type 0
Sends all w = (w.channel ++ pending w.write_buf_list ≡ all) × All IsReady w.write_buf_list

if-Sends :
    (all : Bytes) (b : Bool) (x y : Writer)
    → (b ≡ true → Sends all x)
    → Sends all y
    → Sends all (if b then x else y)
if-Sends all true x y f g = f refl
if-Sends all false x y f g = g

answered-Sends :
    (answer : Answer) (b : SmartBuffer) (bs : List SmartBuffer) (out : Bytes)
    (next : Bytes → Writer) (more : Type 0)
    → IsReady b
    → All IsReady bs
    → (elim answer as (λ _. Type 0) [
      | failed n ↦ n ≡ 0
      | took n ↦ (n ≤ b.watermark - b.index) × more
    ])
    → ((bytes : Bytes) → more → Sends (bytes ++ pending bs) (next bytes))
    → Sends (out ++ (unwritten b ++ pending bs)) (
        let (bytes, c, success, fully_written) = write_buf answer b in
        if not success
        then record { write_buf_list = c ∷ bs; data_event = false; channel = out ++ bytes }
        else if fully_written
        then next (out ++ bytes)
        else record { write_buf_list = c ∷ bs; data_event = true; channel = out ++ bytes })
answered-Sends (failed n) b bs out next more r rs h f =
    let accepted : out ++ take n (unwritten b) ≡ out =
      ap (λ m. out ++ take m (unwritten b)) h
      ∙ ap (◌++◌ out) (take_zero (unwritten b))
      ∙ append-nil out in
    (ap (λ l. l ++ (unwritten b ++ pending bs)) accepted, (r, rs))
answered-Sends (took n) b bs out next more r rs (h, m) f =
    let all : Bytes = out ++ (unwritten b ++ pending bs) in
    let c : SmartBuffer = inc_index b n in
    if-Sends all (n == b.watermark - b.index) (next (out ++ take n (unwritten b)))
      (record { write_buf_list = c ∷ bs; data_event = true; channel = out ++ take n (unwritten b) })
      (λ e.
        let whole : take n (unwritten b) ≡ unwritten b =
          take_all n (unwritten b)
            (ground (arith, e, length-take_le (b.watermark - b.index) (drop b.index b.buf))) in
        subst (λ l. Sends l (next (out ++ take n (unwritten b))))
          (ap (λ l. (out ++ l) ++ pending bs) whole ∙ append_assoc out (unwritten b) (pending bs))
          (f (out ++ take n (unwritten b)) m))
      (
        append_assoc out (take n (unwritten b)) (unwritten c ++ pending bs)
            ∙ ap (◌++◌ out) (sym (append_assoc (take n (unwritten b)) (unwritten c) (pending bs)))
            ∙ ap (λ l. out ++ (l ++ pending bs)) (unwritten-inc_index b n r h),
        (subst IsReady (sym (inc_index-IsReady b n r h)) (omega (arith, r.0, r.1, r.2, h)), rs),
      )

write_loop-Sends :
    (answer : ℕ → Answer) (i : ℕ) (bs : List SmartBuffer) (out : Bytes)
    → All IsReady bs
    → IsPossible answer i bs
    → Sends (out ++ pending bs) (write_loop answer i bs out)
unfolding write_loop
write_loop-Sends answer i [] out r h = (refl, tt)
write_loop-Sends answer i (b ∷ bs) out (r, rs) h =
    answered-Sends (answer i) b bs out (λ bytes. write_loop answer (suc i) bs bytes)
      (IsPossible answer (suc i) bs) r rs h
      (λ bytes more. write_loop-Sends answer (suc i) bs bytes rs more)

write_cb-Sends :
    (answer : ℕ → Answer) (w : Writer) (all : Bytes)
    → IsPossible answer 0 w.write_buf_list
    → Sends all w
    → Sends all (write_cb answer w)
unfolding write_cb
write_cb-Sends answer w all h (e, r) =
    subst (λ l. Sends l (write_loop answer 0 w.write_buf_list w.channel)) e
      (write_loop-Sends answer 0 w.write_buf_list w.channel r h)

-- What the two sides of the writer do.
pub data Action : Type 0 where
  pushes : SmartBuffer → Action
  writes : (ℕ → Answer) → Action

unfoldable pub act : Action → Writer → Writer
unfolding push write_cb
act (pushes b) w = push b w
act (writes answer) w = write_cb answer w

abbrev pub run : List Action → Writer → Writer
run [] w = w
run (a ∷ as_left) w = run as_left (act a w)

-- The channel takes at most what it is given, and each buffer that is pushed is in order.
abbrev pub CanAct : List Action → Writer → Type 0
CanAct [] w = Unit {0}
CanAct (pushes b ∷ as_left) w = IsReady (reset_index b) × CanAct as_left (push b w)
CanAct (writes answer ∷ as_left) w =
    IsPossible answer 0 w.write_buf_list × CanAct as_left (write_cb answer w)

-- The bytes of the buffers that are pushed, each up to its watermark.
abbrev pub messages : List Action → Bytes
messages [] = []
messages (pushes b ∷ as_left) = take b.watermark b.buf ++ messages as_left
messages (writes answer ∷ as_left) = messages as_left

pending-append : (bs cs : List SmartBuffer) → pending (bs ++ cs) ≡ pending bs ++ pending cs
pending-append [] cs = refl
pending-append (b ∷ bs) cs =
    ap (◌++◌ (unwritten b)) (pending-append bs cs)
    ∙ sym (append_assoc (unwritten b) (pending bs) (pending cs))

push-Sends :
    (b : SmartBuffer) (w : Writer) (all : Bytes)
    → IsReady (reset_index b)
    → Sends all w
    → Sends (all ++ take b.watermark b.buf) (push b w)
unfolding push take_over hand_over reset_index
push-Sends b w all r (e, rs) =
    let c : SmartBuffer = (take_over (reset_index b)).0 in
    let whole : unwritten c ≡ take b.watermark b.buf =
      let d : b.watermark - 0 ≡ b.watermark = omega arith in ap (λ n. take n b.buf) d in
    (
      ap (◌++◌ w.channel) (pending-append w.write_buf_list (c ∷ []))
          ∙ sym (append_assoc w.channel (pending w.write_buf_list) (unwritten c ++ []))
          ∙ ap (λ l. l ++ (unwritten c ++ [])) e
          ∙ ap (◌++◌ all) (append-nil (unwritten c) ∙ whole),
      All-append IsReady w.write_buf_list (c ∷ []) rs ((r.0, r.1, r.2), tt),
    )

run-Sends :
    (as_left : List Action) (w : Writer) (all : Bytes)
    → CanAct as_left w
    → Sends all w
    → Sends (all ++ messages as_left) (run as_left w)
unfolding act
run-Sends [] w all can s = subst (λ l. Sends l w) (sym (append-nil all)) s
run-Sends (pushes b ∷ as_left) w all (r, can) s =
    subst (λ l. Sends l (run as_left (push b w)))
      (append_assoc all (take b.watermark b.buf) (messages as_left))
      (run-Sends as_left (push b w) (all ++ take b.watermark b.buf) can (push-Sends b w all r s))
run-Sends (writes answer ∷ as_left) w all (possible, can) s =
    run-Sends as_left (write_cb answer w) all can (write_cb-Sends answer w all possible s)

-- After an error the bytes that the channel has accepted before it are still to be written.
write_loop-failed :
    (answer : ℕ → Answer) (i n : ℕ) (b : SmartBuffer) (bs : List SmartBuffer) (out : Bytes)
    → answer i ≡ failed n
    → let w = write_loop answer i (b ∷ bs) out in
      w.channel ++ pending w.write_buf_list
      ≡ (out ++ take n (unwritten b)) ++ (unwritten b ++ pending bs)
unfolding write_loop
write_loop-failed answer i n b bs out e = rw e refl

abbrev pub new_writer : Writer
new_writer = record { write_buf_list = []; data_event = false; channel = [] }

-- Over any history of buffers that are pushed and of writes, of which the channel takes any part or
-- fails before it has accepted a byte, what it has taken and what is still to be written is what
-- was pushed, each buffer up to its watermark: no byte is lost, written twice or out of order. The
-- channel takes no more than it is given, and the watermark of a buffer that is pushed lies in its
-- block, which is below `size_t`. Errors after accepted bytes, as those of a flush, are not covered.
pub run-messages :
    (as_left : List Action)
    → CanAct as_left new_writer
    → (run as_left new_writer).channel ++ pending (run as_left new_writer).write_buf_list
      ≡ messages as_left
run-messages as_left can = (run-Sends as_left new_writer [] can (refl, tt)).0
