-- ===== src/Server/SessionManager/Sound.antt =====
-- The counts of users: what holds of every session between two calls, and what a call keeps.
use hatohol.Base.{
  ℕ, ◌+◌, ◌<◌, ◌≡◌, ◌≢◌, sym, ap, subst, ◌∙◌, ◌⊎◌, inl, inr, Bool, true, false, not, Option, none,
  some, arith, ◌==◌, if◌then◌else◌, ==_iff, Bool-cases, Bytes, eq_bytes, eq_bytes-eq,
}
use package.hatohol.Server.SessionManager.{Session, Sessions, invalid_event_id}
use package.hatohol.Server.SessionManager.Local.{View, Frame}

abbrev pub count : Bool → ℕ
count b = if b then 1 else 0

abbrev pub HasTimer : Session → Type 0
HasTimer s = (s.timer_id == invalid_event_id) ≡ false

-- A session counts the map, its timer and the smart pointers, `b` says whether it is in the map; only
-- one in the map has a timer, and it has one unless it never times out. A freed one counts nothing.
abbrev pub IsCounted : Option Session → ℕ → Bool → Type 0
IsCounted none n b = (n ≡ 0) × (b ≡ false)
IsCounted (some s) n b =
    (s.used_count ≡ count b + count (not (s.timer_id == invalid_event_id)) + n)
    × (0 < s.used_count)
    × (HasTimer s → b ≡ true)
    × (b ≡ true → (s.timeout == 0) ≡ false → HasTimer s)

abbrev pub mapped_to : Bool → ℕ → Option ℕ
mapped_to b p = if b then some p else none

-- The session `s` at `p`.
abbrev pub IsAt : Sessions → ℕ → Session → Type 0
IsAt m p s =
    (b : Bool) × IsCounted (some s) (m.handles p) b
    × (m.session_id_map s.id ≡ mapped_to b p)
    × ((id : Bytes) → m.session_id_map id ≡ some p → id ≡ s.id)

-- Where nothing lives, no smart pointer and no ID points to; no two sessions have one ID.
pub record IsSound (m : Sessions) : Type 0 where
  pub freed :
      (p : ℕ)
      → m.session p ≡ none
      → (m.handles p ≡ 0) × ((id : Bytes) → m.session_id_map id ≢ some p)
  pub lives : (p : ℕ) (s : Session) → m.session p ≡ some s → IsAt m p s
  pub distinct :
      (p q : ℕ) (s t : Session) → m.session p ≡ some s → m.session q ≡ some t → s.id ≡ t.id → p ≡ q

-- A call that concerns the address `p` and the ID `k`.
module _ (p : ℕ) (k : Bytes) {o : Option Session} {n : ℕ} (b : Bool) {m t : Sessions}
    (sound : IsSound m) (keys : (q : ℕ) (s : Session) → m.session q ≡ some s → s.id ≡ k → p ≡ q)
    (own : (id : Bytes) → m.session_id_map id ≡ some p → id ≡ k)
    (view : View p k o n (mapped_to b p) t) (frame : Frame p k m t) (counted : IsCounted o n b)
    (keyed : (s : Session) → o ≡ some s → s.id ≡ k) where
  -- What `t` maps to an address other than `p`, `m` does too.
  map_before :
      (q : ℕ) (id : Bytes)
      → (p == q) ≡ false
      → t.session_id_map id ≡ some q
      → m.session_id_map id ≡ some q
  map_before q id h e = elim (Bool-cases (eq_bytes k id)) [
    | inl same ↦
        let v : mapped_to b p ≡ some q =
          sym view.mapped ∙ ap t.session_id_map (eq_bytes-eq k id same) ∙ e in
        absurd (elim (Bool-cases b) [
          | inl y ↦ ground (arith, h, ap (λ c. mapped_to c p) (sym y) ∙ v)
          | inr y ↦ ground (arith, ap (λ c. mapped_to c p) (sym y) ∙ v)
        ])
    | inr other ↦ sym (frame.other_id id other) ∙ e
  ]

  own_after : (id : Bytes) → t.session_id_map id ≡ some p → id ≡ k
  own_after id e = elim (Bool-cases (eq_bytes k id)) [
    | inl same ↦ sym (eq_bytes-eq k id same)
    | inr other ↦ own id (sym (frame.other_id id other) ∙ e)
  ]

  freed_here : o ≡ none → (t.handles p ≡ 0) × ((id : Bytes) → t.session_id_map id ≢ some p)
  freed_here e =
      let c : IsCounted none n b = subst (λ x. IsCounted x n b) e counted in
      (
        view.held ∙ c.0,
        λ id h.
            let v : mapped_to b p ≡ some p =
              sym view.mapped ∙ ap t.session_id_map (sym (own_after id h)) ∙ h in
            ground (arith, ap (λ c. mapped_to c p) (sym c.1) ∙ v),
      )

  lives_here : (s : Session) → o ≡ some s → IsAt t p s
  lives_here s e = (
    b,
    subst (λ h. IsCounted (some s) h b) (sym view.held) (subst (λ x. IsCounted x n b) e counted),
    ap t.session_id_map (keyed s e) ∙ view.mapped,
    λ id h. own_after id h ∙ sym (keyed s e),
  )

  lives_there : (q : ℕ) (s : Session) → (p == q) ≡ false → m.session q ≡ some s → IsAt t q s
  lives_there q s h e =
      let (c, counts, mapped, owns) = sound.lives q s e in
      (
        c,
        subst (λ x. IsCounted (some s) x c) (sym (frame.other_handles q h)) counts,
        elim (Bool-cases (eq_bytes k s.id)) [
          | inl same ↦ absurd (ground (arith, h, keys q s e (sym (eq_bytes-eq k s.id same))))
          | inr other ↦ frame.other_id s.id other ∙ mapped
        ],
        λ id x. owns id (map_before q id h x),
      )

  -- Where a session stands afterwards.
  before :
      (q : ℕ) (s : Session)
      → t.session q ≡ some s
      → ((p ≡ q) × (o ≡ some s)) ⊎ (((p == q) ≡ false) × (m.session q ≡ some s))
  before q s e = elim (Bool-cases (p == q)) [
    | inl same ↦
        let x : p ≡ q = (==_iff p q).0 same in inl (x, sym view.stands ∙ ap t.session x ∙ e)
    | inr other ↦ inr (other, sym (frame.other_session q other) ∙ e)
  ]

  pub Frame-IsSound : IsSound t
  Frame-IsSound = record {
    freed = λ q e. elim (Bool-cases (p == q)) [
      | inl same ↦
          let x : p ≡ q = (==_iff p q).0 same in
          subst (λ r. (t.handles r ≡ 0) × ((id : Bytes) → t.session_id_map id ≢ some r)) x
            (freed_here (sym view.stands ∙ ap t.session x ∙ e))
      | inr other ↦
          let (h, i) = sound.freed q (sym (frame.other_session q other) ∙ e) in
          (frame.other_handles q other ∙ h, λ id x. i id (map_before q id other x))
    ];
    lives = λ q s e. elim (before q s e) [
      | inl (x, y) ↦ subst (λ r. IsAt t r s) x (lives_here s y)
      | inr (h, y) ↦ lives_there q s h y
    ];
    distinct = λ q r s u e f i. elim (before q s e) [
      | inl (x, y) ↦ elim (before r u f) [
        | inl (x', y') ↦ sym x ∙ x'
        | inr (h, z) ↦ sym x ∙ keys r u z (sym i ∙ keyed s y)
      ]
      | inr (h, z) ↦ elim (before r u f) [
        | inl (x', y') ↦ sym (keys q s z (i ∙ keyed u y')) ∙ x'
        | inr (h', z') ↦ sound.distinct q r s u z z' i
      ]
    ];
  }
