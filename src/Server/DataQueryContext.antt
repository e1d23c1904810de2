-- ===== src/Server/DataQueryContext.antt =====
-- server/src/DataQueryContext.cc: the privilege of a query and what was read from the database for it.
use hatohol.Base.{ℕ, ◌≡◌, refl, ap, ◌∙◌, ◌⊎◌, inl, inr, Bool, Option, none, some, List, [], ◌∷◌}
use hatohol.Base.Int.{ℤ, eqb_ℤ}
use hatohol.Server.OperationPrivilege.{OperationPrivilege, set_user_id, set_flags}
use hatohol.Server.HostResourceQueryOption.{ServerIdSet, IdSetMap}
use hatohol.Server.HostResourceQueryOption.Reading.{any}

-- `none` is the null pointer.
pub record DataQueryContext : Type 0 where
  pub privilege : OperationPrivilege
  pub srv_host_grp_set_map : Option IdSetMap
  pub server_id_set : Option ServerIdSet

abbrev clear : DataQueryContext → DataQueryContext
clear c = record c { srv_host_grp_set_map = none; server_id_set = none }

-- What a pointer points to, which is made from the database if it is null.
abbrev fetched {ℓ} : {A : Type ℓ} → Option A → A → A
fetched none a = a
fetched (some b) a = b

fetched_lem {ℓ} : {A : Type ℓ} (o : Option A) (a : A) → (o ≡ none) ⊎ (o ≡ some a) → fetched o a ≡ a
fetched_lem o a (inl e) = ap (λ x. fetched x a) e
fetched_lem o a (inr e) = ap (λ x. fetched x a) e

-- A call, and what it returns.
pub data Call : Type 0 where
  user_id_call : ℤ → Call
  flags_call : ℕ → Call
  map_call : Call
  servers_call : Call
  valid_call : ℤ → Call

pub data Reply : Type 0 where
  no_reply : Reply
  map_reply : IdSetMap → Reply
  servers_reply : ServerIdSet → Reply
  valid_reply : Bool → Reply

-- The database: the flags of a user, the servers and hostgroups that a user may see, and the servers
-- that a privilege may see.
module _ (find_flags : ℤ → Option ℕ) (find_map : ℤ → IdSetMap)
    (find_servers : OperationPrivilege → ServerIdSet) where
  unfoldable pub init : ℤ → DataQueryContext
  unfolding set_user_id
  init user_id = record {
    privilege = set_user_id find_flags user_id;
    srv_host_grp_set_map = none;
    server_id_set = none;
  }

  unfoldable pub set_context_user_id : DataQueryContext → ℤ → DataQueryContext
  unfolding set_user_id
  set_context_user_id c user_id = clear (record c { privilege = set_user_id find_flags user_id })

  unfoldable pub set_context_flags : DataQueryContext → ℕ → DataQueryContext
  set_context_flags c flags = clear (record c { privilege = set_flags c.privilege flags })

  unfoldable pub get_server_host_grp_set_map : DataQueryContext → DataQueryContext × IdSetMap
  get_server_host_grp_set_map c =
      let m = fetched c.srv_host_grp_set_map (find_map c.privilege.user_id) in
      (record c { srv_host_grp_set_map = some m }, m)

  unfoldable pub get_valid_server_id_set : DataQueryContext → DataQueryContext × ServerIdSet
  get_valid_server_id_set c =
      let s = fetched c.server_id_set (find_servers c.privilege) in
      (record c { server_id_set = some s }, s)

  unfoldable pub is_valid_server : DataQueryContext → ℤ → DataQueryContext × Bool
  unfolding get_valid_server_id_set
  is_valid_server c server_id =
      let r = get_valid_server_id_set c in (r.0, any (eqb_ℤ server_id) r.1)

  unfoldable pub call : DataQueryContext → Call → DataQueryContext × Reply
  unfolding set_context_user_id set_context_flags get_server_host_grp_set_map
      get_valid_server_id_set is_valid_server
  call c (user_id_call user_id) = (set_context_user_id c user_id, no_reply)
  call c (flags_call flags) = (set_context_flags c flags, no_reply)
  call c map_call = let r = get_server_host_grp_set_map c in (r.0, map_reply r.1)
  call c servers_call = let r = get_valid_server_id_set c in (r.0, servers_reply r.1)
  call c (valid_call id) = let r = is_valid_server c id in (r.0, valid_reply r.1)

  pub run : DataQueryContext → List Call → List Reply
  run c [] = []
  run c (k ∷ ks) = (call c k).1 ∷ run (call c k).0 ks

  -- A context that reads the database at every call.
  pub answer : OperationPrivilege → Call → OperationPrivilege × Reply
  answer p (user_id_call user_id) = (set_user_id find_flags user_id, no_reply)
  answer p (flags_call flags) = (set_flags p flags, no_reply)
  answer p map_call = (p, map_reply (find_map p.user_id))
  answer p servers_call = (p, servers_reply (find_servers p))
  answer p (valid_call id) = (p, valid_reply (any (eqb_ℤ id) (find_servers p)))

  pub answers : OperationPrivilege → List Call → List Reply
  answers p [] = []
  answers p (k ∷ ks) = (answer p k).1 ∷ answers (answer p k).0 ks

  abbrev IsCoherent : DataQueryContext → Type 0
  IsCoherent c =
      ((c.srv_host_grp_set_map ≡ none)
        ⊎ (c.srv_host_grp_set_map ≡ some (find_map c.privilege.user_id)))
      × ((c.server_id_set ≡ none) ⊎ (c.server_id_set ≡ some (find_servers c.privilege)))

  call-answer :
      (c : DataQueryContext) (k : Call)
      → IsCoherent c
      → IsCoherent (call c k).0
        × ((call c k).0.privilege ≡ (answer c.privilege k).0)
        × ((call c k).1 ≡ (answer c.privilege k).1)
  unfolding call answer
  call-answer c (user_id_call user_id) h = ((inl refl, inl refl), refl, refl)
  call-answer c (flags_call flags) h = ((inl refl, inl refl), refl, refl)
  call-answer c map_call (a, b) =
      let e = fetched_lem c.srv_host_grp_set_map (find_map c.privilege.user_id) a in
      ((inr (ap some e), b), refl, ap map_reply e)
  call-answer c servers_call (a, b) =
      let e = fetched_lem c.server_id_set (find_servers c.privilege) b in
      ((a, inr (ap some e)), refl, ap servers_reply e)
  call-answer c (valid_call id) (a, b) =
      let e = fetched_lem c.server_id_set (find_servers c.privilege) b in
      ((a, inr (ap some e)), refl, ap (λ s. valid_reply (any (eqb_ℤ id) s)) e)

  run-coherent :
      (c : DataQueryContext) (ks : List Call) → IsCoherent c → run c ks ≡ answers c.privilege ks
  unfolding run answers
  run-coherent c [] h = refl
  run-coherent c (k ∷ ks) h =
      let (g, p, r) = call-answer c k h in
      ap (λ x. x ∷ run (call c k).0 ks) r
      ∙ ap (◌∷◌ (answer c.privilege k).1)
          (run-coherent (call c k).0 ks g ∙ ap (λ q. answers q ks) p)

  -- What a context answers, over any history of changes of the user and of the flags and of
  -- questions, is what the database answers for the privilege at that moment: nothing that was read
  -- for an earlier user or earlier flags is answered. The database does not change meanwhile.
  pub run-answers :
      (user_id : ℤ) (ks : List Call)
      → run (init user_id) ks ≡ answers (set_user_id find_flags user_id) ks
  unfolding init
  run-answers user_id ks = run-coherent (init user_id) ks (inl refl, inl refl)
