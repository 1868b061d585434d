-- ===== src/Catalog/Files/Loaded.antt =====
-- catalog.py: what a catalog holds when it was loaded from its files.
use prisma_sdwan_mcp.Prelude.{
  Bool-cases, All, In, All-append, ◌≡◌, refl, sym, ap, ◌∙◌, subst, ◌⊎◌, inl, inr, Option, none,
  some, List, [], ◌∷◌, map,
}
use prisma_sdwan_mcp.Prelude.Text.{Text, text_eq, text_eq→eq}
use prisma_sdwan_mcp.Prelude.Result.{
  Result, ok, ◌>>=◌, chain_parts, raise_absurd, returned_eq, chain_kept,
}
use prisma_sdwan_mcp.Errors.{Failure, of_catalog, of_catalog-ok}
use prisma_sdwan_mcp.Value.{
  Value, null, bool, int, real, str, list, dict, Fields, get_or_null, truthy,
}
use prisma_sdwan_mcp.Tools.{iterate_or_empty}
use prisma_sdwan_mcp.Catalog.{from_curated, ActionSpec, add, validate, get_action}
use prisma_sdwan_mcp.Catalog.Unique.{
  AreDistinct, add_parts, has_action-differs, AreDistinct-append, AreChecked, validate-AreChecked,
  get_action-In,
}
use prisma_sdwan_mcp.Catalog.Describe.{DomainInfo}
use prisma_sdwan_mcp.Catalog.Files.{
  raise_class, get_or, text_entry, parameters_at, method_entry, action_from_registry,
  curated_domain_entry, action_from_compat, add_entries, put_domain, default_domain, curated_domain,
  Draft, registry_domains, checked_draft, add_named, add_under, add_domain, add_domains,
  add_curated, load_files,
}

-- The domain of the name is among the domains.
abbrev pub IsNamed : List DomainInfo → Text → Type 0
IsNamed domains name = In name (map (λ d. d.domain) domains)

-- An action of the registry stands in a domain of the catalog.
abbrev pub IsPlaced : List DomainInfo → ActionSpec → Type 0
IsPlaced domains a = (a.source ≡ from_curated) ⊎ IsNamed domains a.domain

put_domain-IsNamed : (d : DomainInfo) (ds : List DomainInfo) → IsNamed (put_domain d ds) d.domain
unfolding put_domain
put_domain-IsNamed d [] = inl refl
put_domain-IsNamed d (e ∷ es) = elim (Bool-cases (text_eq e.domain d.domain)) [
  | inl k ↦ rw k (inl refl)
  | inr k ↦ rw k (inr (put_domain-IsNamed d es))
]

put_domain-kept :
    (d : DomainInfo) (ds : List DomainInfo) (name : Text)
    → IsNamed ds name
    → IsNamed (put_domain d ds) name
unfolding put_domain
put_domain-kept d (e ∷ es) name m = elim (Bool-cases (text_eq e.domain d.domain)) [
  | inl k ↦ rw k (elim m [ inl same ↦ inl (same ∙ text_eq→eq _ _ k) | inr later ↦ inr later ])
  | inr k ↦
      rw k (elim m [ inl same ↦ inl same | inr later ↦ inr (put_domain-kept d es name later) ])
]
put_domain-kept d [] name m = absurd m

default_domain-kept :
    (d : DomainInfo) (ds : List DomainInfo) (name : Text)
    → IsNamed ds name
    → IsNamed (default_domain d ds) name
unfolding default_domain
default_domain-kept d (e ∷ es) name m = elim (Bool-cases (text_eq e.domain d.domain)) [
  | inl k ↦ rw k m
  | inr k ↦
      rw k (elim m [ inl same ↦ inl same | inr later ↦ inr (default_domain-kept d es name later) ])
]
default_domain-kept d [] name m = absurd m

raise-IsPlaced :
    (ds es : List DomainInfo) (actions : List ActionSpec)
    → ((name : Text) → IsNamed ds name → IsNamed es name)
    → All (IsPlaced ds) actions
    → All (IsPlaced es) actions
raise-IsPlaced ds es [] f h = tt
raise-IsPlaced ds es (a ∷ rest) f (inl e, h) = (inl e, raise-IsPlaced ds es rest f h)
raise-IsPlaced ds es (a ∷ rest) f (inr m, h) = (inr (f a.domain m), raise-IsPlaced ds es rest f h)

-- The actions are distinct and each stands in a domain.
abbrev IsOrdered : Draft → Type 0
IsOrdered d = AreDistinct d.actions × All (IsPlaced d.domains) d.actions

-- What a constructor of actions promises.
abbrev Makes : (Fields → Result Failure ActionSpec) → (ActionSpec → Type 0) → Type 0
Makes make P = (fs : Fields) (a : ActionSpec) → make fs ≡ ok a → P a

add-kept :
    (P : ActionSpec → Type 0) (actions more : List ActionSpec) (a : ActionSpec)
    → AreDistinct actions
    → All P actions
    → P a
    → add actions a ≡ ok more
    → AreDistinct more × All P more
add-kept P actions more a d p here h =
    let (new, e) = add_parts actions a more h in
    rw e (
      AreDistinct-append actions a d (has_action-differs a actions new),
      All-append P actions (a ∷ []) p (here, tt),
    )

add_entries-kept :
    (P : ActionSpec → Type 0) (make : Fields → Result Failure ActionSpec) (vs : List Value)
    (actions all_ : List ActionSpec)
    → Makes make P
    → AreDistinct actions
    → All P actions
    → add_entries make vs actions ≡ ok all_
    → AreDistinct all_ × All P all_
unfolding add_entries raise_class
add_entries-kept P make [] actions all_ makes d p h = let e : actions ≡ all_ = cc in rw (← e) (d, p)
add_entries-kept P make (dict fs ∷ vs) actions all_ makes d p h =
    let (a, e, f) =
      chain_parts (make fs) (λ a. of_catalog (add actions a) >>= λ more. add_entries make vs more)
        h in
    let (more, g, k) =
      chain_parts (of_catalog (add actions a)) (λ more. add_entries make vs more) f in
    let (x, y) = add-kept P actions more a d p (makes fs a e) (of_catalog-ok _ more g) in
    add_entries-kept P make vs more all_ makes x y k
add_entries-kept P make (null ∷ vs) actions all_ makes d p h = raise_absurd h
add_entries-kept P make (bool x ∷ vs) actions all_ makes d p h = raise_absurd h
add_entries-kept P make (int z ∷ vs) actions all_ makes d p h = raise_absurd h
add_entries-kept P make (real t ∷ vs) actions all_ makes d p h = raise_absurd h
add_entries-kept P make (str s ∷ vs) actions all_ makes d p h = raise_absurd h
add_entries-kept P make (list xs ∷ vs) actions all_ makes d p h = raise_absurd h

module _ (repr : Value → Text) where
  action_from_registry-domain :
      (domain : Text) → Makes (action_from_registry repr domain) (λ a. a.domain ≡ domain)
  unfolding action_from_registry
  action_from_registry-domain domain fs a h =
      let P : ActionSpec → Type 0 = λ a. a.domain ≡ domain in
      chain_kept P (text_entry "action_id" fs) _
        (λ action_id. chain_kept P (text_entry "sdk_call" fs) _ (λ sdk_call.
          chain_kept P (method_entry repr fs) _ (λ http_method.
            chain_kept P (parameters_at repr "path_parameters" fs) _ (λ path_parameters.
              chain_kept P (parameters_at repr "query_parameters" fs) _ (λ query_parameters.
                chain_kept P (iterate_or_empty (get_or_null "output_fields" fs)) _
                  (λ output_fields b e. sym (ap (λ a. a.domain) (returned_eq e))))))))
        a h

  action_from_compat-source : Makes (action_from_compat repr) (λ a. a.source ≡ from_curated)
  unfolding action_from_compat
  action_from_compat-source fs a h =
      let P : ActionSpec → Type 0 = λ a. a.source ≡ from_curated in
      chain_kept P (text_entry "action_id" fs) _
        (λ action_id. chain_kept P (curated_domain_entry repr fs) _ (λ domain.
          chain_kept P (text_entry "sdk_call" fs) _ (λ sdk_call.
            chain_kept P (method_entry repr fs) _ (λ http_method.
              chain_kept P (parameters_at repr "path_parameters" fs) _ (λ path_parameters.
                chain_kept P (iterate_or_empty (get_or_null "output_fields" fs)) _
                  (λ output_fields b e. sym (ap (λ a. a.source) (returned_eq e))))))))
        a h

  add_named-kept :
      (name : Text) (fs : Fields) (d e : Draft)
      → IsOrdered d
      → add_named repr name fs d ≡ ok e
      → IsOrdered e
  unfolding add_named
  add_named-kept name fs d e (distinct, placed) h =
      let info : DomainInfo = record {
        domain = name;
        title = get_or "title" (str name) fs;
        description = get_or "description" (str []) fs;
      } in
      let more = put_domain info d.domains in
      let before =
        raise-IsPlaced d.domains more d.actions (λ m i. put_domain-kept info d.domains m i)
          placed in
      let (entries, e1, rest) = chain_parts (iterate_or_empty (get_or_null "actions" fs)) _ h in
      let (actions, e2, last) =
        chain_parts (add_entries (action_from_registry repr name) entries d.actions) _ rest in
      let makes : Makes (action_from_registry repr name) (IsPlaced more) = λ raw a made. inr (
        subst (IsNamed more) (sym (action_from_registry-domain name raw a made))
          (put_domain-IsNamed info d.domains)) in
      subst IsOrdered (returned_eq last) (
        add_entries-kept (IsPlaced more) (action_from_registry repr name) entries d.actions actions
          makes distinct before e2)

  add_under-kept :
      (v : Value) (fs : Fields) (d e : Draft)
      → IsOrdered d
      → add_under repr v fs d ≡ ok e
      → IsOrdered e
  unfolding add_under raise_class
  add_under-kept (str name) fs d e o h = add_named-kept name fs d e o h
  add_under-kept null fs d e o h = raise_absurd h
  add_under-kept (bool x) fs d e o h = raise_absurd h
  add_under-kept (int z) fs d e o h = raise_absurd h
  add_under-kept (real t) fs d e o h = raise_absurd h
  add_under-kept (list vs) fs d e o h = raise_absurd h
  add_under-kept (dict es) fs d e o h = raise_absurd h

  add_domain-kept :
      (v : Value) (d e : Draft) → IsOrdered d → add_domain repr v d ≡ ok e → IsOrdered e
  unfolding add_domain raise_class
  add_domain-kept (dict fs) d e o h = elim (Bool-cases (truthy (get_or_null "domain" fs))) [
    | inl k ↦ add_under-kept (get_or_null "domain" fs) fs d e o (rw k at h)
    | inr k ↦ raise_absurd (rw k at h)
  ]
  add_domain-kept null d e o h = raise_absurd h
  add_domain-kept (bool x) d e o h = raise_absurd h
  add_domain-kept (int z) d e o h = raise_absurd h
  add_domain-kept (real t) d e o h = raise_absurd h
  add_domain-kept (str t) d e o h = raise_absurd h
  add_domain-kept (list vs) d e o h = raise_absurd h

  add_domains-kept :
      (vs : List Value) (d e : Draft) → IsOrdered d → add_domains repr vs d ≡ ok e → IsOrdered e
  unfolding add_domains
  add_domains-kept [] d e o h = subst IsOrdered (returned_eq h) o
  add_domains-kept (v ∷ vs) d e o h =
      let (mid, first, later) =
        chain_parts (add_domain repr v d) (λ d'. add_domains repr vs d') h in
      add_domains-kept vs mid e (add_domain-kept v d mid o first) later

  add_curated-kept :
      (file : Option Value) (d e : Draft)
      → IsOrdered d
      → add_curated repr file d ≡ ok e
      → IsOrdered e
  unfolding add_curated raise_class
  add_curated-kept none d e o h = subst IsOrdered (returned_eq h) o
  add_curated-kept (some (dict fs)) d e (distinct, placed) h =
      let more = default_domain curated_domain d.domains in
      let before =
        raise-IsPlaced d.domains more d.actions
          (λ m i. default_domain-kept curated_domain d.domains m i) placed in
      let (entries, e1, rest) = chain_parts (iterate_or_empty (get_or_null "actions" fs)) _ h in
      let (actions, e2, last) =
        chain_parts (add_entries (action_from_compat repr) entries d.actions) _ rest in
      let makes : Makes (action_from_compat repr) (IsPlaced more) =
        λ raw a made. inl (action_from_compat-source raw a made) in
      subst IsOrdered (returned_eq last) (
        add_entries-kept (IsPlaced more) (action_from_compat repr) entries d.actions actions makes
          distinct before e2)
  add_curated-kept (some null) d e o h = raise_absurd h
  add_curated-kept (some (bool x)) d e o h = raise_absurd h
  add_curated-kept (some (int z)) d e o h = raise_absurd h
  add_curated-kept (some (real t)) d e o h = raise_absurd h
  add_curated-kept (some (str t)) d e o h = raise_absurd h
  add_curated-kept (some (list vs)) d e o h = raise_absurd h

-- What a catalog holds when it was loaded from its files.
pub record IsLoaded (d : Draft) : Type 0 where
  pub distinct : AreDistinct d.actions
  pub checked : AreChecked d.actions
  pub placed : All (IsPlaced d.domains) d.actions
  pub retrieved : (a : ActionSpec) → In a d.actions → get_action d.actions a.action_id ≡ ok a

-- Whatever the files hold, a catalog that loads from them has actions with different ids that each
-- pass the checks, and `get` gives for the id of an action that action; each action comes from the
-- curated additions or stands in a domain of the catalog.
pub load_files-IsLoaded :
    (repr : Value → Text) (registry_file curated_file : Option Value) (d : Draft)
    → load_files repr registry_file curated_file ≡ ok d
    → IsLoaded d
unfolding load_files checked_draft
load_files-IsLoaded repr registry_file curated_file d h =
    let (vs, e1, h1) = chain_parts (registry_domains registry_file) _ h in
    let (d1, e2, h2) =
      chain_parts (add_domains repr vs (record { domains = []; actions = [] })) _ h1 in
    let (d2, e3, h3) = chain_parts (add_curated repr curated_file d1) _ h2 in
    let (done, e4, h4) = chain_parts (of_catalog (validate d2.actions)) _ h3 in
    let (distinct, placed) =
      add_curated-kept repr curated_file d1 d2
        (add_domains-kept repr vs (record { domains = []; actions = [] }) d1 (tt, tt) e2) e3 in
    subst IsLoaded (returned_eq h4) (record {
      distinct = distinct;
      checked = validate-AreChecked d2.actions done (of_catalog-ok _ done e4);
      placed = placed;
      retrieved = λ a m. get_action-In d2.actions a distinct m;
    })
