-- ===== src/Resolver/Single.antt =====
-- resolver.py: what `require_one` picks.
use prisma_sdwan_mcp.Prelude.{
  ltb, Bool-cases, length, is_empty, String, ◌≡◌, refl, subst, inl, inr, true, List, [], ◌∷◌, map,
  arith,
}
use prisma_sdwan_mcp.Prelude.Text.{Text, strip}
use prisma_sdwan_mcp.Prelude.Result.{err, ok, chain_parts}
use prisma_sdwan_mcp.Value.{Value, null, bool, int, real, str, list, dict, Fields}
use prisma_sdwan_mcp.Errors.{many_records, resolution}
use prisma_sdwan_mcp.Resolver.Records.{records, project}
use prisma_sdwan_mcp.Resolver.{
  Alias, Resolution, ambiguous, Services, select, or_default, resolve_in, find, single, require_one,
}

abbrev pub fields_of : Alias → List String
fields_of alias = or_default alias.match_fields ("name" ∷ [])

abbrev pub projection_of : Alias → List String
projection_of alias = or_default alias.projection ("id" ∷ "name" ∷ [])

-- The records that `find` selects from the executor's answer.
abbrev pub selected : Services → Alias → Text → Value → List Fields
selected s alias value answer = select s.repr (fields_of alias) (strip value) (records answer)

resolve_in-matches :
    (s : Services) (kind : String) (alias : Alias) (value : Text) (answer : Value) (r : Resolution)
    → resolve_in s kind alias (strip value) answer ≡ ok r
    → r.matches ≡ map (project (projection_of alias)) (selected s alias value answer)
unfolding resolve_in
resolve_in-matches s kind alias value (dict fs) r h = ground arith
resolve_in-matches s kind alias value null r h = ground arith
resolve_in-matches s kind alias value (bool b) r h = ground arith
resolve_in-matches s kind alias value (int n) r h = ground arith
resolve_in-matches s kind alias value (real t) r h = ground arith
resolve_in-matches s kind alias value (str t) r h = ground arith
resolve_in-matches s kind alias value (list vs) r h = ground arith

-- What a successful `find` has done.
pub record Finds (s : Services) (kind : String) (value : Text) (paths : Fields)
    (matches : List Fields) : Type 0 where
  pub alias : Alias
  pub answer : Value
  pub aliased : s.resource_alias kind ≡ ok alias
  pub executed : s.execute alias.action_id paths ≡ ok answer
  pub chosen : matches ≡ map (project (projection_of alias)) (selected s alias value answer)

pub find-Finds :
    (s : Services) (kind : String) (value : Text) (paths : Fields) (r : Resolution)
    → find s kind value paths ≡ ok r
    → Finds s kind value paths r.matches
unfolding find
find-Finds s kind value paths r h = elim (Bool-cases (is_empty (strip value))) [
  | inl e ↦ cc (rw e at h)
  | inr e ↦
      let (alias, ha, k) = chain_parts _ _ (rw e at h) in
      let (answer, hx, l) = chain_parts _ _ k in
      record {
        alias = alias;
        answer = answer;
        aliased = ha;
        executed = hx;
        chosen = resolve_in-matches s kind alias value answer r l;
      }
]

single-ok :
    (kind : String) (value : Text) (rs : List Fields) (r : Fields)
    → single kind value rs ≡ ok r
    → rs ≡ r ∷ []
unfolding single
single-ok kind value [] r h = cc
single-ok kind value (x ∷ []) r h = ground arith
single-ok kind value (x ∷ y ∷ rs) r h = cc

-- A record that `require_one` returns is the projection of the only record that was selected.
pub require_one_unique :
    (s : Services) (kind : String) (value : Text) (paths : Fields) (r : Fields)
    → require_one s kind value paths ≡ ok r
    → Finds s kind value paths (r ∷ [])
unfolding require_one
require_one_unique s kind value paths r h =
    let (res, f, k) = chain_parts (find s kind value paths) _ h in
    subst (λ ms. Finds s kind value paths ms) (single-ok kind value res.matches r k)
      (find-Finds s kind value paths res f)

-- Two or more matches are an error that carries all of them.
pub require_one-ambiguous :
    (s : Services) (kind : String) (value : Text) (paths : Fields) (res : Resolution)
    → find s kind value paths ≡ ok res
    → ambiguous res ≡ true
    → require_one s kind value paths
      ≡ err (resolution (many_records (length res.matches) kind value) res.matches)
unfolding require_one ambiguous single
require_one-ambiguous s kind value paths res f h = rw f (many res.matches h)
  where
    many :
        (rs : List Fields)
        → ltb 1 (length rs) ≡ true
        → single kind value rs ≡ err (resolution (many_records (length rs) kind value) rs)
    many [] h = ground arith
    many (x ∷ []) h = ground arith
    many (x ∷ y ∷ rs) h = refl
