-- ===== src/Resolver.antt =====
-- resolver.py: from a human name to the controller's record, never by a guess.
pub mod Records
pub mod Precedence
pub mod Single
pub mod Sites
pub mod Tests
use prisma_sdwan_mcp.Prelude.{
  ltb, ◌==◌, if◌then◌else◌, length, any, keep, is_empty, String, Bool, true, false, not, ◌&&◌, ◌||◌,
  Option, none, some, List, [], ◌∷◌, map,
}
use prisma_sdwan_mcp.Prelude.Text.{Text, text_eq, contains, strip, lower}
use prisma_sdwan_mcp.Prelude.Int.{pos, negsuc}
use prisma_sdwan_mcp.Prelude.Result.{Result, err, ok, ◌>>=◌}
use prisma_sdwan_mcp.Value.{
  Value, null, int, str, dict, Fields, end, is_null, get, get_or_null, has, truthy,
}
use prisma_sdwan_mcp.Resolver.Records.{records, project, to_text}
use prisma_sdwan_mcp.Errors.{
  name_required, unable_to_resolve, no_record, many_records, other_site, no_element, many_elements,
  Failure, resolution,
}

-- An entry of `resource_aliases`; an empty list stands for a missing one.
pub record Alias : Type 0 where
  pub action_id : String
  pub match_fields : List String
  pub projection : List String

-- `Resolution` of models.py
pub record Resolution : Type 0 where
  pub kind : String
  pub requested : Text
  pub matches : List Fields

pub found : Resolution → Bool
found r = length r.matches == 1

unfoldable pub ambiguous : Resolution → Bool
ambiguous r = ltb 1 (length r.matches)

-- What the resolver calls: the catalog's aliases and the executor. `repr` is Python's `str` of a
-- list or an object.
pub record Services : Type 0 where
  pub resource_alias : String → Result Failure Alias
  pub execute : String → Fields → Result Failure Value
  pub repr : Value → Text

module _ (repr : Value → Text) where
  -- `str(r.get("id", "")) == requested`
  unfoldable pub has_id : Text → Fields → Bool
  unfolding to_text get text_eq
  has_id requested r = text_eq (elim (get "id" r) [ none ↦ [] | some v ↦ to_text repr v ]) requested

  -- A test of one field that is not None, on its text in lower case.
  field_passes : (Text → Bool) → Fields → String → Bool
  unfolding get_or_null to_text lower
  field_passes test r f =
      let v = get_or_null f r in if is_null v then false else test (lower (to_text repr v))

  unfoldable pub has_name : List String → Text → Fields → Bool
  unfolding field_passes text_eq
  has_name fields needle r = any (field_passes (λ t. text_eq t needle) r) fields

  unfoldable pub holds_name : List String → Text → Fields → Bool
  unfolding field_passes contains
  holds_name fields needle r = any (field_passes (λ t. contains t needle) r) fields

  -- The precedence of `find`: exact id, then exact name, then part of a name.
  unfoldable pub select : List String → Text → List Fields → List Fields
  select fields requested rs =
      let by_id = keep (has_id requested) rs in
      let by_name = keep (has_name fields (lower requested)) rs in
      if not (is_empty by_id)
      then by_id
      else if not (is_empty by_name)
      then by_name
      else keep (holds_name fields (lower requested)) rs

abbrev pub or_default : List String → List String → List String
or_default [] default = default
or_default (f ∷ fs) default = f ∷ fs

-- The checks on what the executor returned.
resolve_in : Services → String → Alias → Text → Value → Result Failure Resolution
unfolding has get_or_null records project
resolve_in s kind alias requested data_ =
    let good : Result Failure Resolution = ok (record {
      kind = kind;
      requested = requested;
      matches =
          map (project (or_default alias.projection ("id" ∷ "name" ∷ [])))
            (select s.repr (or_default alias.match_fields ("name" ∷ [])) requested (records data_));
    }) in
    elim data_ [
      | dict fs ↦
          if has "error" fs
          then err (resolution (unable_to_resolve kind (get_or_null "error" fs)) [])
          else good
      | _ ↦ good
    ]

unfoldable pub find : Services → String → Text → Fields → Result Failure Resolution
unfolding resolve_in strip
find s kind value path_parameters =
    if is_empty (strip value) then err (resolution (name_required kind) []) else do
      alias ← s.resource_alias kind
      data_ ← s.execute alias.action_id path_parameters
      resolve_in s kind alias (strip value) data_

single : String → Text → List Fields → Result Failure Fields
single kind value [] = err (resolution (no_record kind value) [])
single kind value (r ∷ []) = ok r
single kind value (r ∷ r' ∷ rs) =
    err (resolution (many_records (length (r ∷ r' ∷ rs)) kind value) (r ∷ r' ∷ rs))

unfoldable pub require_one : Services → String → Text → Fields → Result Failure Fields
unfolding single
require_one s kind value path_parameters = do
  result ← find s kind value path_parameters
  single kind value result.matches

-- `==` of two ids, which are scalars: a text, an integer or None.
unfoldable pub same_id : Value → Value → Bool
unfolding text_eq
same_id null null = true
same_id (str s) (str t) = text_eq s t
same_id (int (pos m)) (int (pos n)) = m == n
same_id (int (negsuc m)) (int (negsuc n)) = m == n
same_id _ _ = false

-- `item.get("site_id") == site_id`
unfoldable pub at_site : Value → Fields → Bool
unfolding get_or_null same_id
at_site site_id item = same_id (get_or_null "site_id" item) site_id

-- `item.get("site_id") in (None, site_id)`
unfoldable pub in_scope : Value → Fields → Bool
unfolding at_site
in_scope site_id item = is_null (get_or_null "site_id" item) || at_site site_id item

-- The narrowing of the element's matches to a site whose id is known.
narrow : Text → Value → Value → List Fields → Result Failure (List Fields)
unfolding in_scope
narrow element site_id site_label matches =
    let scoped = keep (in_scope site_id) matches in
    let with_site = keep (at_site site_id) scoped in
    if is_empty scoped && not (is_empty matches)
    then err (resolution (other_site element matches site_label) [])
    else ok (if is_empty with_site then scoped else with_site)

-- The element's record, out of what is left of the matches.
pick_element : Text → Option Value → List Fields → Result Failure Fields
pick_element element site_id [] = err (resolution (no_element element site_id) [])
pick_element element site_id (r ∷ []) = ok r
pick_element element site_id (r ∷ r' ∷ rs) =
    err (resolution (many_elements (length (r ∷ r' ∷ rs)) element site_id) (r ∷ r' ∷ rs))

-- `(site_record or {}).get("name") or site_id`
site_label : Fields → Value → Value
unfolding get_or_null truthy
site_label record_ site_id =
    let name = get_or_null "name" record_ in if truthy name then name else site_id

-- What the site's record gives: its id, if it has one that is not None, and the label for messages.
abbrev pub Site : Type 0
Site = Option (Value × Value)

unfoldable pub site_of : Option Fields → Site
unfolding get_or_null site_label
site_of none = none
site_of (some r) =
    let site_id = get_or_null "id" r in
    if is_null site_id then none else some (site_id, site_label r site_id)

-- An argument that is None or empty is not given.
unfoldable pub given : Option Text → Option Text
given none = none
given (some []) = none
given (some (c ∷ s)) = some (c ∷ s)

element_at : Text → Site → List Fields → Result Failure Fields
unfolding narrow pick_element
element_at element none matches = pick_element element none matches
element_at element (some (site_id, label)) matches = do
  left ← narrow element site_id label matches
  pick_element element (some site_id) left

-- The three parts of the result; None is `null`.
pub record SiteElement : Type 0 where
  pub site_id : Value
  pub element_id : Value
  pub element_record : Option Fields

finish : Site → Option Fields → SiteElement
unfolding get_or_null truthy
finish none none = record { site_id = null; element_id = null; element_record = none }
finish none (some r) = record {
  site_id = if truthy (get_or_null "site_id" r) then get_or_null "site_id" r else null;
  element_id = get_or_null "id" r;
  element_record = some r;
}
finish (some (site_id, label)) none = record {
  site_id = site_id;
  element_id = null;
  element_record = none;
}
finish (some (site_id, label)) (some r) = record {
  site_id = site_id;
  element_id = get_or_null "id" r;
  element_record = some r;
}

site_record_of : Services → Option Text → Result Failure (Option Fields)
unfolding require_one
site_record_of s none = ok none
site_record_of s (some site) = do r ← require_one s "site" site end; ok (some r)

element_record_of : Services → Option Text → Site → Result Failure (Option Fields)
unfolding find element_at
element_record_of s none site = ok none
element_record_of s (some element) site = do
  resolution_ ← find s "element" element end
  r ← element_at element site resolution_.matches
  ok (some r)

unfoldable pub site_element : Services → Option Text → Option Text → Result Failure SiteElement
unfolding site_record_of element_record_of finish site_of given
site_element s site element = do
  site_record ← site_record_of s (given site)
  let where_ = site_of site_record
  r ← element_record_of s (given element) where_
  ok (finish where_ r)
