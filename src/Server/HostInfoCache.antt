-- ===== src/Server/HostInfoCache.antt =====
-- server/src/HostInfoCache.cc: the names of the hosts of a monitoring server, by their identifiers there.
use hatohol.Base.{
  ℕ, ◌-◌, ◌^◌, ◌≡◌, ◌≢◌, sym, ap, ◌∙◌, ◌⊎◌, inl, inr, Bool, true, false, not, ◌||◌, Option, none,
  some, List, [], ◌∷◌, arith, ◌==◌, if◌then◌else◌, Bool-cases, if-true, if-false, Option-cases,
  Bytes, eq_bytes, eq_bytes_refl, eq_bytes-eq,
}
use mathlib.Core.Option.{some-injective}

pub record Element : Type 0 where
  pub host_id : ℕ
  pub name : Bytes

-- The fields of a host's definition that the cache reads.
pub record ServerHostDef : Type 0 where
  pub host_id : ℕ
  pub host_id_in_server : Bytes
  pub name : Bytes

-- `-2` as an `uint64_t`.
abbrev pub invalid_host_id : ℕ
invalid_host_id = 2 ^ 64 - 2

-- The map, as what `find` finds.
abbrev pub HostInfoCache : Type 0
HostInfoCache = Bytes → Option Element

abbrev pub init : HostInfoCache
init id = none

abbrev set : Bytes → Element → HostInfoCache → HostInfoCache
set id elem cache other = if eq_bytes other id then some elem else cache other

-- Whether a name differs from that of the entry that was found.
abbrev is_new : Option Element → Bytes → Bool
is_new none name = true
is_new (some elem) name = not (eq_bytes elem.name name)

abbrev do_update : HostInfoCache → ServerHostDef → Bool
do_update cache def = is_new (cache def.host_id_in_server) def.name

-- `none` is the failure of the assertion.
unfoldable pub update : ServerHostDef → ℕ → Bool → HostInfoCache → Option HostInfoCache
update def host_id adhoc cache =
    let id = if not (host_id == invalid_host_id) then host_id else def.host_id in
    let elem : Element = record { host_id = id; name = def.name } in
    if do_update cache def
    then (if adhoc || not (id == invalid_host_id)
        then some (set def.host_id_in_server elem cache)
        else none)
    else some cache

-- `find_host_id` is the map from the identifiers on the server, `none` at all of them without one.
abbrev get_host_id : (Bytes → Option ℕ) → ServerHostDef → ℕ
get_host_id find_host_id def = elim (find_host_id def.host_id_in_server) [
  | none ↦ invalid_host_id
  | some host_id ↦ host_id
]

unfoldable pub update_all :
    (Bytes → Option ℕ) → List ServerHostDef → HostInfoCache → Option HostInfoCache
unfolding update
update_all find_host_id [] cache = some cache
update_all find_host_id (def ∷ defs) cache =
    elim (update def (get_host_id find_host_id def) false cache) [
      | none ↦ none
      | some c ↦ update_all find_host_id defs c
    ]

unfoldable pub get_name : Bytes → HostInfoCache → Option Element
get_name id cache = cache id

abbrev pub ad_hoc_element : Bytes → Element
ad_hoc_element name = record { host_id = invalid_host_id; name = name }

-- The cache, and the element that is filled.
unfoldable pub register_ad_hoc : Bytes → Bytes → HostInfoCache → Option (HostInfoCache × Element)
unfolding update
register_ad_hoc id_in_server name cache =
    let def : ServerHostDef = record {
      host_id = invalid_host_id;
      host_id_in_server = id_in_server;
      name = name;
    } in
    elim (update def invalid_host_id true cache) [
      | none ↦ none
      | some c ↦ some (c, ad_hoc_element name)
    ]

true_ne_false : true ≢ false
true_ne_false e = ground (arith, e)

none_ne_some {ℓ} : {A : Type ℓ} → {a : A} → none ≢ some a
none_ne_some e = ground (arith, e)

-- The name in what was found.
abbrev pub name_of : Option Element → Option Bytes
name_of none = none
name_of (some elem) = some elem.name

-- The name that the last definition of a host gives it, or the one that was known.
pub last_name : Bytes → List ServerHostDef → Option Bytes → Option Bytes
last_name id [] known = known
last_name id (def ∷ defs) known =
    let here = last_name id defs (some def.name) in
    let there = last_name id defs known in if eq_bytes id def.host_id_in_server then here else there

abbrev new_element : ServerHostDef → ℕ → Element
new_element def host_id = record {
  host_id = if not (host_id == invalid_host_id) then host_id else def.host_id;
  name = def.name;
}

-- Whether the definition is known by its name already, or sets the entry.
update-cases :
    (def : ServerHostDef) (host_id : ℕ) (adhoc : Bool) (cache c : HostInfoCache)
    → update def host_id adhoc cache ≡ some c
    → ((do_update cache def ≡ false) × (cache ≡ c))
      ⊎ ((do_update cache def ≡ true)
          × (set def.host_id_in_server (new_element def host_id) cache ≡ c))
unfolding update
update-cases def host_id adhoc cache c h = elim (Bool-cases (do_update cache def)) [
  | inl u ↦
      let k = sym (if-true _ _ u) ∙ h in
      elim (Bool-cases (adhoc || not ((new_element def host_id).host_id == invalid_host_id))) [
        | inl v ↦ inr (u, some-injective _ _ (sym (if-true _ _ v) ∙ k))
        | inr v ↦ absurd (none_ne_some (sym (if-false _ _ v) ∙ k))
      ]
  | inr u ↦ inl (u, some-injective _ _ (sym (if-false _ _ u) ∙ h))
]

known-name_of :
    (def : ServerHostDef) (o : Option Element)
    → is_new o def.name ≡ false
    → name_of o ≡ some def.name
known-name_of def none h = ground (arith, h)
known-name_of def (some elem) h = ap some (eq_bytes-eq elem.name def.name (ground (arith, h)))

update-name_of :
    (def : ServerHostDef) (host_id : ℕ) (adhoc : Bool) (cache c : HostInfoCache) (id : Bytes)
    → update def host_id adhoc cache ≡ some c
    → name_of (c id)
      ≡ (if eq_bytes id def.host_id_in_server then some def.name else name_of (cache id))
update-name_of def host_id adhoc cache c id h =
    elim (Bool-cases (eq_bytes id def.host_id_in_server)) [
      | inl e ↦ elim (update-cases def host_id adhoc cache c h) [
        | inl (u, k) ↦
            let i = eq_bytes-eq id def.host_id_in_server e in
            ap (λ f. name_of (f id)) (sym k)
            ∙ ap (λ j. name_of (cache j)) i
            ∙ known-name_of def (cache def.host_id_in_server) u
            ∙ sym (if-true _ _ e)
        | inr (u, k) ↦
            ap (λ f. name_of (f id)) (sym k) ∙ ap name_of (if-true _ _ e) ∙ sym (if-true _ _ e)
      ]
      | inr e ↦ elim (update-cases def host_id adhoc cache c h) [
        | inl (u, k) ↦ ap (λ f. name_of (f id)) (sym k) ∙ sym (if-false _ _ e)
        | inr (u, k) ↦
            ap (λ f. name_of (f id)) (sym k) ∙ ap name_of (if-false _ _ e) ∙ sym (if-false _ _ e)
      ]
    ]

-- After an update that does not throw, each host has the name of its last definition, or the one
-- that it had if none is its.
pub get_name-update_all :
    (find_host_id : Bytes → Option ℕ) (defs : List ServerHostDef) (cache c : HostInfoCache)
    (id : Bytes)
    → update_all find_host_id defs cache ≡ some c
    → name_of (get_name id c) ≡ last_name id defs (name_of (get_name id cache))
unfolding update_all get_name last_name
get_name-update_all find_host_id [] cache c id h =
    ap (λ f. name_of (f id)) (sym (some-injective _ _ h))
get_name-update_all find_host_id (def ∷ defs) cache c id h =
    elim (Option-cases (update def (get_host_id find_host_id def) false cache)) [
      | inl n ↦ absurd (ground (arith, n, h))
      | inr (d, n) ↦
          let rest : update_all find_host_id defs d ≡ some c = ground (arith, n, h) in
          get_name-update_all find_host_id defs d c id rest
          ∙ ap (last_name id defs)
              (update-name_of def (get_host_id find_host_id def) false cache d id n)
          ∙ ground arith
    ]

register_ad_hoc-get_name :
    (id_in_server name : Bytes) (cache c : HostInfoCache) (elem : Element)
    → cache id_in_server ≡ none
    → register_ad_hoc id_in_server name cache ≡ some (c, elem)
    → c id_in_server ≡ some (ad_hoc_element name)
unfolding register_ad_hoc
register_ad_hoc-get_name id_in_server name cache c elem n h =
    let def : ServerHostDef = record {
      host_id = invalid_host_id;
      host_id_in_server = id_in_server;
      name = name;
    } in
    elim (Option-cases (update def invalid_host_id true cache)) [
      | inl m ↦ absurd (ground (arith, m, h))
      | inr (e, m) ↦ elim (update-cases def invalid_host_id true cache e m) [
        | inl (u, k) ↦ absurd (true_ne_false (sym (ap (λ o. is_new o name) n) ∙ u))
        | inr (u, k) ↦
            let filled : Option HostInfoCache → Option (HostInfoCache × Element) =
              λ o. elim o [ none ↦ none | some x ↦ some (x, ad_hoc_element name) ] in
            let same = ap (λ o. elim o [ none ↦ e | some r ↦ r.0 ]) (sym (ap filled m) ∙ h) in
            ap (λ f. f id_in_server) (sym same ∙ sym k) ∙ if-true _ _ (eq_bytes_refl id_in_server)
      ]
    ]

-- A host that was registered ad hoc, while nothing was known of it, keeps its invalid identifier
-- when its definition with that name comes.
pub update-register_ad_hoc :
    (id_in_server name : Bytes) (host_id : ℕ) (cache c d : HostInfoCache) (elem : Element)
    → get_name id_in_server cache ≡ none
    → register_ad_hoc id_in_server name cache ≡ some (c, elem)
    → update
        (record { host_id = host_id; host_id_in_server = id_in_server; name = name })
        host_id
        false
        c
      ≡ some d
    → get_name id_in_server d ≡ some (ad_hoc_element name)
unfolding update register_ad_hoc get_name
update-register_ad_hoc id_in_server name host_id cache c d elem n h k =
    let def : ServerHostDef = record {
      host_id = host_id;
      host_id_in_server = id_in_server;
      name = name;
    } in
    let known = register_ad_hoc-get_name id_in_server name cache c elem n h in
    elim (update-cases def host_id false c d k) [
      | inl (u, e) ↦ ap (λ f. f id_in_server) (sym e) ∙ known
      | inr (u, e) ↦
          absurd
            (true_ne_false (sym u ∙ ap (λ o. is_new o name) known ∙ ap not (eq_bytes_refl name)))
    ]
