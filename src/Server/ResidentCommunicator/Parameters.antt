-- ===== src/Server/ResidentCommunicator/Parameters.antt =====
-- The parameters of a resident module, from the server to the yard.
use hatohol.Base.{
  ℕ, ◌+◌, ◌-◌, ◌%◌, ◌^◌, ◌≤◌, ◌<◌, ◌≡◌, refl, sym, ap, subst, ◌∙◌, Option, none, some, List, [],
  ◌∷◌, ◌++◌, append-nil, append_assoc, arith, ◌==◌, if◌then◌else◌, length, length-append, take,
  drop, take-length-append, drop-length-append, Bytes,
}
use hatohol.Mlpl.SmartBuffer.Block.{
  size_mod, to_bytes, length-to_bytes, length-written, take-written, read_at,
}
use hatohol.Mlpl.SmartBuffer.Operations.{
  SmartBuffer, Outcome, ok, fail, alloc_failed, then_ok, init, reset_index_deep, reset_index,
  inc_index, set_watermark_if_needed, add, add16, add32, get_value_and_inc_index,
  ensure_remaining_size,
}
use hatohol.Mlpl.SmartBuffer.Appends.{
  Reallocates, Holds, Grown, ensure_remaining_size-Grown, store_at-inside, inc_index-Holds,
  add_template-add,
}
use hatohol.Mlpl.SmartBuffer.Numbers.{get_value-number, read_at-inside}
use package.hatohol.Server.ResidentCommunicator.{
  proto_header_len, pkt_type_parameters, set_header, add_module_path, add_module_option,
  send_parameters, take_text, get_parameters, get_parameters_body,
}

-- `src` is written behind the index, in a block of the same size.
abbrev Wrote : SmartBuffer → Bytes → SmartBuffer → Type 0
Wrote b src c = Holds b src c × (c.size ≡ b.size)

inc_index-size : (b : SmartBuffer) (n : ℕ) → (inc_index b n).size ≡ b.size
unfolding inc_index set_watermark_if_needed
inc_index-size b n = ground arith

add-Wrote :
    (b : SmartBuffer) (src : Bytes)
    → length b.buf ≡ b.size
    → b.index + length src ≤ b.size
    → b.size < size_mod
    → (c : SmartBuffer) × (add b src ≡ ok c) × Wrote b src c
unfolding add
add-Wrote b src h fits small =
    let block : Bytes = take b.index b.buf ++ (src ++ drop (b.index + length src) b.buf) in
    let c : SmartBuffer = inc_index (record b { buf = block }) (length src) in
    (
      c,
      ap (λ o. then_ok o (λ c. ok (inc_index c (length src))))
          (store_at-inside b b.index src (omega arith)),
      (
        inc_index-Holds b src block (length-written b.buf b.index src (omega arith) ∙ h)
            (take-written b.buf b.index src (omega arith)) fits small,
        inc_index-size (record b { buf = block }) (length src),
      ),
    )

abbrev add_all : SmartBuffer → List Bytes → Outcome SmartBuffer
add_all b [] = ok b
add_all b (s ∷ ss) = then_ok (add b s) (λ c. add_all c ss)

abbrev joined : List Bytes → Bytes
joined [] = []
joined (s ∷ ss) = s ++ joined ss

add_all-Wrote :
    (b : SmartBuffer) (ss : List Bytes)
    → length b.buf ≡ b.size
    → b.index + length (joined ss) ≤ b.size
    → b.size < size_mod
    → b.index ≤ b.watermark
    → (c : SmartBuffer) × (add_all b ss ≡ ok c) × Wrote b (joined ss) c
add_all-Wrote b [] h fits small mark = (
  b,
  refl,
  ((h, omega arith, omega arith, small, mark, sym (append-nil (take b.index b.buf))), refl),
)
add_all-Wrote b (s ∷ ss) h fits small mark =
    let len = length-append s (joined ss) in
    let (c, e, ((block, at, inside, below, marked, all), same)) =
      add-Wrote b s h (omega arith) small in
    let (d, e', ((block', at', inside', below', marked', all'), same')) =
      add_all-Wrote c ss block (omega arith) below marked in
    (
      d,
      ap (λ o. then_ok o (λ c. add_all c ss)) e ∙ e',
      (
        (
          block',
          omega (arith, len),
          inside',
          below',
          marked',
          all' ∙ ap (λ l. l ++ joined ss) all ∙ append_assoc (take b.index b.buf) s (joined ss),
        ),
        same' ∙ same,
      ),
    )

-- A text is read that stands at the index.
take_text_lem :
    (b : SmartBuffer) (front s rest : Bytes)
    → b.buf ≡ front ++ (s ++ rest)
    → b.index ≡ length front
    → b.index + length s < size_mod
    → (c : SmartBuffer) × (take_text (length s) b ≡ ok (c, s))
      × (c.buf ≡ b.buf)
      × (c.index ≡ b.index + length s)
unfolding take_text inc_index set_watermark_if_needed
take_text_lem b front s rest e at fits =
    let r : read_at b.buf b.index (length s) ≡ some s = rw (e, at) (read_at-inside front s rest) in
    (inc_index b (length s), ground (arith, r), ground arith, ground arith)

then_ok_assoc :
    {A B C : Type 0} (m : Outcome A) (f : A → Outcome B) (g : B → Outcome C)
    → then_ok (then_ok m f) g ≡ then_ok m (λ a. then_ok (f a) g)
then_ok_assoc (ok a) f g = refl
then_ok_assoc (fail e) f g = refl

then_ok-ok : {A : Type 0} (m : Outcome A) → then_ok m (λ a. ok a) ≡ m
then_ok-ok (ok a) = refl
then_ok-ok (fail e) = refl

module _ (path option : Bytes) where
  abbrev body : List Bytes
  body = to_bytes 2 (length path) ∷ path ∷ to_bytes 2 (length option) ∷ option ∷ []

  abbrev pieces : ℕ → List Bytes
  pieces n = to_bytes 4 n ∷ to_bytes 2 pkt_type_parameters ∷ body

  abbrev chain : ℕ → SmartBuffer → Outcome SmartBuffer
  chain n b =
      then_ok (then_ok (add32 b n) (λ d. add16 d pkt_type_parameters))
        (λ c. then_ok (add_module_path path c) (λ d. add_module_option option d))

  chain-add_all : (n : ℕ) (b : SmartBuffer) → chain n b ≡ add_all b (pieces n)
  unfolding add32 add16 add_module_path add_module_option
  chain-add_all n b = simp (add_template-add, then_ok_assoc, then_ok-ok)

  -- A buffer that has got these bytes from the pipe.
  abbrev pub got : Bytes → SmartBuffer
  got s = record { index = 0; buf = s; size = length s; watermark = 0 }

  -- The yard reads the header, then as many bytes as it says, and finds the path and the option.
  abbrev pub Arrives : Outcome SmartBuffer → Type 0
  Arrives (fail e) = e ≡ alloc_failed
  Arrives (ok b) =
      (get_parameters (got (take proto_header_len (take b.index b.buf)))
        ≡ ok (some (b.index - proto_header_len)))
      × (get_parameters_body (got (drop proto_header_len (take b.index b.buf))) ≡ ok (path, option))

  header : (n : ℕ) → Bytes
  header n = to_bytes 4 n ++ to_bytes 2 pkt_type_parameters

  length-header : (n : ℕ) → length (header n) ≡ proto_header_len
  unfolding header
  length-header n = omega (
    arith,
    length-append (to_bytes 4 n) (to_bytes 2 pkt_type_parameters),
    length-to_bytes 4 n,
    length-to_bytes 2 pkt_type_parameters,
  )

  get_parameters-header : (n : ℕ) → n < 2 ^ 32 → get_parameters (got (header n)) ≡ ok (some n)
  unfolding get_parameters header
  get_parameters-header n small =
      let b : SmartBuffer = got (header n) in
      let first =
        get_value-number b [] (to_bytes 2 pkt_type_parameters) 4 n (omega arith) refl refl
          (omega arith) in
      let second =
        get_value-number (record b { index = b.index + 4 }) (to_bytes 4 n) [] 2 pkt_type_parameters
          (omega arith)
          (ap (◌++◌ (to_bytes 4 n)) (sym (append-nil (to_bytes 2 pkt_type_parameters))))
          (omega (arith, length-to_bytes 4 n)) (omega arith) in
      ap
        (λ o. then_ok o (λ (c, body_len).
          then_ok (get_value_and_inc_index c 2) (λ (d, pkt_type).
            ok (if pkt_type == pkt_type_parameters then some body_len else none))))
        first
      ∙ ap
          (λ o.
            then_ok o
              (λ (d, pkt_type). ok (if pkt_type == pkt_type_parameters then some n else none)))
          second

  get_parameters_body-joined :
      length path < 2 ^ 16
      → length option < 2 ^ 16
      → get_parameters_body (got (joined body)) ≡ ok (path, option)
  unfolding get_parameters_body
  get_parameters_body-joined p o =
      let b : SmartBuffer = got (joined body) in
      let m : ℕ = length path in
      let n : ℕ = length option in
      let front : Bytes = to_bytes 2 m ++ path in
      let len2 = length-to_bytes 2 m in
      let b1 : SmartBuffer = record b { index = b.index + 2 } in
      let e1 =
        get_value-number b [] (path ++ (to_bytes 2 n ++ (option ++ []))) 2 m (omega arith) refl refl
          (omega arith) in
      let (b2, e2, same2, at2) =
        take_text_lem b1 (to_bytes 2 m) path (to_bytes 2 n ++ (option ++ [])) refl
          (omega (arith, len2)) (omega arith) in
      let whole : b.buf ≡ front ++ (to_bytes 2 n ++ (option ++ [])) =
        sym (append_assoc (to_bytes 2 m) path (to_bytes 2 n ++ (option ++ []))) in
      let len = length-append (to_bytes 2 m) path in
      let e3 =
        get_value-number b2 front (option ++ []) 2 n (omega arith) (same2 ∙ whole)
          (omega (arith, at2, len, len2)) (omega (arith, at2)) in
      let b3 : SmartBuffer = record b2 { index = b2.index + 2 } in
      let (b4, e4, same4, at4) =
        take_text_lem b3 (front ++ to_bytes 2 n) option []
          (same2 ∙ whole ∙ sym (append_assoc front (to_bytes 2 n) (option ++ [])))
          (omega (arith, at2, len, len2, length-append front (to_bytes 2 n), length-to_bytes 2 n))
          (omega (arith, at2)) in
      ground (arith, e1, e2, e3, e4)

  written-Arrives :
      (n : ℕ) (b : SmartBuffer)
      → n ≡ length (joined body)
      → n < 2 ^ 32
      → length path < 2 ^ 16
      → length option < 2 ^ 16
      → b.index ≡ proto_header_len + n
      → take b.index b.buf ≡ joined (pieces n)
      → Arrives (ok b)
  unfolding header
  written-Arrives n b size small p o at all =
      let parts : joined (pieces n) ≡ header n ++ joined body =
        sym (append_assoc (to_bytes 4 n) (to_bytes 2 pkt_type_parameters) (joined body)) in
      let six = length-header n in
      let front : take proto_header_len (take b.index b.buf) ≡ header n =
        ap (take proto_header_len) (all ∙ parts)
        ∙ subst (λ k. take k (header n ++ joined body) ≡ header n) six
            (take-length-append (header n) (joined body)) in
      let rest : drop proto_header_len (take b.index b.buf) ≡ joined body =
        ap (drop proto_header_len) (all ∙ parts)
        ∙ subst (λ k. drop k (header n ++ joined body) ≡ joined body) six
            (drop-length-append (header n) (joined body)) in
      let len : n ≡ b.index - proto_header_len = omega arith in
      (
        ap (λ s. get_parameters (got s)) front
            ∙ get_parameters-header n small
            ∙ ap (λ (k : ℕ). ok (some k)) len,
        ap (λ s. get_parameters_body (got s)) rest ∙ get_parameters_body-joined p o,
      )

  ensured-Arrives :
      (n : ℕ) (out : Outcome SmartBuffer)
      → n ≡ length (joined body)
      → n < 2 ^ 32
      → length path < 2 ^ 16
      → length option < 2 ^ 16
      → Grown init (proto_header_len + n) out
      → Arrives (then_ok out (λ c. chain n (reset_index_deep c)))
  unfolding init reset_index_deep reset_index
  ensured-Arrives n (fail e) size small p o g = g
  ensured-Arrives n (ok c) size small p o (block, at, room, below, kept) =
      let b : SmartBuffer = reset_index_deep c in
      let len = length-append (to_bytes 4 n) (to_bytes 2 pkt_type_parameters ++ joined body) in
      let len' = length-append (to_bytes 2 pkt_type_parameters) (joined body) in
      let six : length (joined (pieces n)) ≡ proto_header_len + n =
        omega
          (arith, len, len', length-to_bytes 4 n, length-to_bytes 2 pkt_type_parameters, size) in
      let (d, e, ((block', at', inside, below', mark, all), same)) =
        add_all-Wrote b (pieces n) block (omega (arith, room, six)) below (omega arith) in
      subst Arrives (sym (chain-add_all n b ∙ e))
        (written-Arrives n d size small p o (omega (arith, at', six)) all)

  length-body : length (joined body) ≡ 2 + length path + 2 + length option
  length-body = omega (
    arith,
    length-append (to_bytes 2 (length path))
        (path ++ (to_bytes 2 (length option) ++ (option ++ []))),
    length-append path (to_bytes 2 (length option) ++ (option ++ [])),
    length-append (to_bytes 2 (length option)) (option ++ []),
    length-append option [],
    length-to_bytes 2 (length path),
    length-to_bytes 2 (length option),
  )

  -- The path and the option of a module that the server sends are those that the yard gets, when it
  -- pulls the header and then as many bytes as the header says, unless `realloc` fails. Both are
  -- shorter than 2 ^ 16, and `realloc` keeps the old bytes.
  pub send_parameters-Arrives :
      (realloc : Bytes → ℕ → Option Bytes)
      → Reallocates realloc
      → length path < 2 ^ 16
      → length option < 2 ^ 16
      → Arrives (send_parameters realloc path option)
  unfolding send_parameters set_header init
  send_parameters-Arrives realloc re p o =
      let n : ℕ = (2 + length path + 2 + length option) % 2 ^ 32 in
      let whole : n ≡ length (joined body) = omega (arith, length-body) in
      subst Arrives
        (sym (
          then_ok_assoc (ensure_remaining_size realloc init (proto_header_len + n))
            (λ c. then_ok (add32 (reset_index_deep c) n) (λ d. add16 d pkt_type_parameters))
            (λ c. then_ok (add_module_path path c) (λ d. add_module_option option d))))
        (ensured-Arrives n (ensure_remaining_size realloc init (proto_header_len + n)) whole
          (omega arith) p o (grown realloc re n (omega arith)))
    where
      grown :
          (realloc : Bytes → ℕ → Option Bytes)
          → Reallocates realloc
          → (n : ℕ) → n < 2 ^ 32
          → Grown init
              (proto_header_len + n)
              (ensure_remaining_size realloc init (proto_header_len + n))
      grown realloc re n h =
          ensure_remaining_size-Grown realloc re init (proto_header_len + n) refl (omega arith)
            (omega arith) (omega arith)
