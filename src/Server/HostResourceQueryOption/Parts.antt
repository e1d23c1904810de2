-- ===== src/Server/HostResourceQueryOption/Parts.antt =====
-- What the parts of the condition of a query say of a row.
use hatohol.Base.{
  ℕ, suc, ◌-◌, ◌<◌, ◌≡◌, ◌≢◌, refl, ap, ◌∙◌, inl, inr, Bool, true, false, ◌||◌, none, some, List,
  [], ◌∷◌, ◌++◌, map, append_assoc, arith, Bool-cases, length, Bytes, codes, c_str, contains,
  eq_bytes, All,
}
use hatohol.Base.Int.{ℤ}
use hatohol.Mlpl.StringUtils.Chars.{vsprintf, vsprintf_whole_iff, c_str-without_nul}
use hatohol.Mlpl.StringUtils.Split.{join, contains-append}
use hatohol.Server.DbTermCodec.{enc, enc-without_nul}
use package.hatohol.Server.HostResourceQueryOption.{all_host_groups, has_id}
use package.hatohol.Server.HostResourceQueryOption.Conditions.{
  enc_int, hostgroup_loop, make_condition_hostgroup,
}
use package.hatohol.Server.HostResourceQueryOption.Reading.{
  IsWord, IsTerm, any, among, Restricts, Denotes, contains-word, vsprintf-Denotes, IsPlainTerm,
}

-- What `%d` writes is a word, and shorter than the buffer of `sprintf`.
abbrev pub IsDecimal : (ℤ → Bytes) → Type 0
IsDecimal dec = (n : ℤ) → IsWord (dec n) × (length (dec n) < 0x400)

pub enc-IsPlainTerm : (v : Bytes) → IsPlainTerm (enc v)
enc-IsPlainTerm v = record { term = inr (v, refl); clean = enc-without_nul v }

pub enc_int_lem : (dec : ℤ → Bytes) (n : ℤ) → IsDecimal dec → enc_int dec n ≡ dec n
unfolding enc_int
enc_int_lem dec n h =
    (vsprintf_whole_iff (dec n) (contains-word (dec n) (h n).0)).1 (λ e. omega (arith, e, (h n).1))

pub enc_int-IsPlainTerm : (dec : ℤ → Bytes) (n : ℤ) → IsDecimal dec → IsPlainTerm (enc_int dec n)
enc_int-IsPlainTerm dec n h =
    rw (enc_int_lem dec n h) (record { term = inl (h n).0; clean = contains-word (dec n) (h n).0 })

abbrev terms : List Bytes → List Bytes
terms = map enc

terms-IsTerm : (gs : List Bytes) → All IsTerm (terms gs)
terms-IsTerm [] = tt
terms-IsTerm (g ∷ gs) = (inr (g, refl), terms-IsTerm gs)

hostgroup_loop-step :
    (acc g : Bytes) (n : ℕ) (gs : List Bytes)
    → eq_bytes g all_host_groups ≡ false
    → hostgroup_loop acc (suc n) (g ∷ gs) ≡ hostgroup_loop ((acc ++ enc g) ++ codes ",") n gs
unfolding hostgroup_loop
hostgroup_loop-step acc g n gs h =
    let m : suc n - 1 ≡ n = omega arith in
    ground (arith, h, c_str-without_nul (enc g) (enc-without_nul g), m)

hostgroup_loop-join :
    (acc : Bytes) (g : Bytes) (gs : List Bytes)
    → has_id all_host_groups (g ∷ gs) ≡ false
    → hostgroup_loop acc (length gs) (g ∷ gs) ≡ some (acc ++ join b',' (terms (g ∷ gs)))
unfolding hostgroup_loop join
hostgroup_loop-join acc g [] h = ground (arith, h, c_str-without_nul (enc g) (enc-without_nul g))
hostgroup_loop-join acc g (x ∷ gs) h =
    hostgroup_loop-step acc g (length gs) (x ∷ gs) (ground (arith, h))
    ∙ hostgroup_loop-join ((acc ++ enc g) ++ codes ",") x gs (ground (arith, h))
    ∙ ap some (
        append_assoc (acc ++ enc g) (codes ",") (join b',' (terms (x ∷ gs)))
        ∙ append_assoc acc (enc g) (codes "," ++ join b',' (terms (x ∷ gs))))

hostgroup_loop-none :
    (acc : Bytes) (n : ℕ) (gs : List Bytes)
    → has_id all_host_groups gs ≡ true
    → hostgroup_loop acc n gs ≡ none
unfolding hostgroup_loop
hostgroup_loop-none acc n [] h = ground (arith, h)
hostgroup_loop-none acc n (g ∷ gs) h = ground (
  arith,
  h,
  hostgroup_loop-none ((acc ++ c_str (enc g)) ++ codes ",") (n - 1) gs,
  hostgroup_loop-none (acc ++ c_str (enc g)) (n - 1) gs,
)

contains-join : (gs : List Bytes) → contains (join b',' (terms gs)) 0 ≡ false
unfolding join
contains-join [] = refl
contains-join (g ∷ []) = enc-without_nul g
contains-join (g ∷ x ∷ gs) =
    rw (contains-append (enc g) (b',' ∷ join b',' (terms (x ∷ gs))) 0, enc-without_nul g)
      (contains-join (x ∷ gs))

pub any-map : (p : Bytes → Bool) (gs : List Bytes) → any p (terms gs) ≡ any (λ g. p (enc g)) gs
any-map p [] = refl
any-map p (g ∷ gs) = ground (arith, any-map p gs)

make_condition_hostgroup-all :
    (gs : List Bytes) (column : Bytes)
    → has_id all_host_groups gs ≡ true
    → make_condition_hostgroup gs column ≡ []
unfolding make_condition_hostgroup
make_condition_hostgroup-all gs column h =
    ground (arith, hostgroup_loop-none [] (length gs - 1) gs h)

abbrev pub in_text : Bytes → List Bytes → Bytes
in_text column ts = column ++ (codes " IN (" ++ (join b',' ts ++ codes ")"))

make_condition_hostgroup-join :
    (g : Bytes) (gs : List Bytes) (column : Bytes)
    → IsWord column
    → has_id all_host_groups (g ∷ gs) ≡ false
    → make_condition_hostgroup (g ∷ gs) column ≡ vsprintf (in_text column (terms (g ∷ gs)))
unfolding make_condition_hostgroup
make_condition_hostgroup-join g gs column w h =
    let n : suc (length gs) - 1 ≡ length gs = omega arith in
    let c = c_str-without_nul column (contains-word column w) in
    let j = c_str-without_nul (join b',' (terms (g ∷ gs))) (contains-join (g ∷ gs)) in
    let e = hostgroup_loop-join [] g gs h in ground (arith, n, c, j, e)

pub contains-in_text :
    (column : Bytes) (ts : List Bytes)
    → IsWord column
    → contains (join b',' ts) 0 ≡ false
    → contains (in_text column ts) 0 ≡ false
contains-in_text column ts w n =
    rw
      (
        contains-append column (codes " IN (" ++ (join b',' ts ++ codes ")")) 0,
        contains-word column w,
        contains-append (join b',' ts) (codes ")") 0,
        n,
      )
      refl

module _ {row : Bytes → Bytes → Bool} where
  pub make_condition_hostgroup-Denotes :
      (gs : List Bytes) (column : Bytes)
      → IsWord column
      → gs ≢ []
      → Denotes
          (Restricts row)
          (make_condition_hostgroup gs column)
          (has_id all_host_groups gs || any (λ g. row column (enc g)) gs)
  make_condition_hostgroup-Denotes [] column w n = absurd (n refl)
  make_condition_hostgroup-Denotes (g ∷ gs) column w n =
      elim (Bool-cases (has_id all_host_groups (g ∷ gs))) [
        | inl h ↦
            rw (h, make_condition_hostgroup-all (g ∷ gs) column h) (refl, λ short. inl (refl, refl))
        | inr h ↦
            rw (h, make_condition_hostgroup-join g gs column w h, ← any-map (row column) (g ∷ gs))
              (vsprintf-Denotes (Restricts row) (in_text column (terms (g ∷ gs)))
                (any (row column) (terms (g ∷ gs)))
                (contains-in_text column (terms (g ∷ gs)) w (contains-join (g ∷ gs)))
                (λ short. inr (
                  among column (terms (g ∷ gs)) w (terms-IsTerm (g ∷ gs))
                    (λ e. ground (arith, e)))))
      ]
