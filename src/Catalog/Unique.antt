-- ===== src/Catalog/Unique.antt =====
-- catalog.py: the ids of a catalog, and what is found under them.
use prisma_sdwan_mcp.Prelude.Text.{text_eq, text_eq→eq, text_eq_refl}
use prisma_sdwan_mcp.Prelude.{
  Bool-cases, All, In, All-append, All-at, ◌≡◌, refl, sym, ap, ◌∙◌, ◌≢◌, inl, inr, true, false,
  List, [], ◌∷◌, ◌++◌, append-nil, append_assoc, arith,
}
use prisma_sdwan_mcp.Prelude.Result.{ok, ◌>>=◌, chain_parts}
use prisma_sdwan_mcp.Catalog.{
  ActionSpec, has_action_id, has_action, add, add_all, check_action, validate, load, get_action,
}

-- No two actions have the same id.
abbrev pub AreDistinct : List ActionSpec → Type 0
AreDistinct [] = Unit
AreDistinct (a ∷ rest) = All (λ b. a.action_id ≢ b.action_id) rest × AreDistinct rest

pub add_parts :
    (actions : List ActionSpec) (a : ActionSpec) (more : List ActionSpec)
    → add actions a ≡ ok more
    → (has_action a.action_id actions ≡ false) × (more ≡ actions ++ a ∷ [])
unfolding add
add_parts actions a more h = elim (Bool-cases (has_action a.action_id actions)) [
  | inl e ↦ cc (rw e at h)
  | inr e ↦ (e, cc (rw e at h))
]

pub has_action-differs :
    (a : ActionSpec) (actions : List ActionSpec)
    → has_action a.action_id actions ≡ false
    → All (λ b. b.action_id ≢ a.action_id) actions
unfolding has_action has_action_id
has_action-differs a [] h = tt
has_action-differs a (b ∷ rest) h = (
  λ e.
      let same : text_eq b.action_id a.action_id ≡ true = rw e (text_eq_refl a.action_id) in
      cc (rw (has_action, has_action_id, same) at h),
  has_action-differs a rest (ground arith),
)

pub AreDistinct-append :
    (actions : List ActionSpec) (a : ActionSpec)
    → AreDistinct actions
    → All (λ b. b.action_id ≢ a.action_id) actions
    → AreDistinct (actions ++ a ∷ [])
AreDistinct-append [] a d h = (tt, tt)
AreDistinct-append (b ∷ rest) a (e, d) (n, h) = (
  All-append (λ c. b.action_id ≢ c.action_id) rest (a ∷ []) e (n, tt),
  AreDistinct-append rest a d h,
)

add_all-AreDistinct :
    (actions new all_ : List ActionSpec)
    → AreDistinct actions
    → add_all actions new ≡ ok all_
    → AreDistinct all_ × (all_ ≡ actions ++ new)
unfolding add_all
add_all-AreDistinct actions [] all_ d h =
    let e : actions ≡ all_ = cc in rw (← e) (d, sym (append-nil actions))
add_all-AreDistinct actions (a ∷ rest) all_ d h =
    let (more, e, f) = chain_parts (add actions a) (λ more. add_all more rest) h in
    let (g, k) = add_parts actions a more e in
    let (x, y) =
      add_all-AreDistinct more rest all_
        (rw k (AreDistinct-append actions a d (has_action-differs a actions g))) f in
    (x, y ∙ (ap (λ l. l ++ rest) k ∙ append_assoc actions (a ∷ []) rest))

abbrev pub AreChecked : List ActionSpec → Type 0
AreChecked actions = All (λ a. check_action a ≡ ok tt) actions

pub validate-AreChecked :
    (actions : List ActionSpec) (done : Unit {0}) → validate actions ≡ ok done → AreChecked actions
unfolding validate
validate-AreChecked [] done h = tt
validate-AreChecked (a ∷ rest) done h =
    let (u, e, f) = chain_parts (check_action a) (λ u. validate rest) h in
    (e, validate-AreChecked rest done f)

pub get_action-In :
    (actions : List ActionSpec) (a : ActionSpec)
    → AreDistinct actions
    → In a actions
    → get_action actions a.action_id ≡ ok a
unfolding get_action
get_action-In (b ∷ rest) a (n, d) (inl e) = rw (e, text_eq_refl b.action_id) refl
get_action-In (b ∷ rest) a (n, d) (inr m) = elim (Bool-cases (text_eq b.action_id a.action_id)) [
  | inl e ↦
      absurd
        (All-at (λ c. b.action_id ≢ c.action_id) a rest n m (text_eq→eq b.action_id a.action_id e))
  | inr e ↦ rw e (get_action-In rest a d m)
]
get_action-In [] a d m = absurd m

-- What a catalog holds when it was loaded.
pub record IsCatalog (given_actions actions : List ActionSpec) : Type 0 where
  pub all_kept : actions ≡ given_actions
  pub distinct : AreDistinct actions
  pub checked : AreChecked actions
  pub retrieved : (a : ActionSpec) → In a given_actions → get_action actions a.action_id ≡ ok a

-- A catalog that loads holds all actions of the registry and then of the curated additions, in their
-- order; their ids differ, each passes the checks, and each is what `get` gives for its id.
pub load-IsCatalog :
    (registry_actions curated_actions actions : List ActionSpec)
    → load registry_actions curated_actions ≡ ok actions
    → IsCatalog (registry_actions ++ curated_actions) actions
unfolding load
load-IsCatalog r c actions h =
    let (all_, e, f) =
      chain_parts (add_all [] (r ++ c)) (λ all_. validate all_ >>= λ checked. ok all_) h in
    let (u, g, k) = chain_parts (validate all_) (λ checked. ok all_) f in
    let (d, l) = add_all-AreDistinct [] (r ++ c) all_ tt e in
    let same : all_ ≡ actions = cc in
    rw (← same) (record {
      all_kept = l;
      distinct = d;
      checked = validate-AreChecked all_ u g;
      retrieved = λ a m. get_action-In all_ a d (rw l m);
    })
