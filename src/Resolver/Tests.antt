-- ===== src/Resolver/Tests.antt =====
-- The resolver on a small inventory, and its theorems at that input.
use prisma_sdwan_mcp.Prelude.{
  if◌then◌else◌, In, String, ◌≡◌, refl, ◌↔◌, true, Option, some, [], ◌∷◌, str_eq,
}
use prisma_sdwan_mcp.Prelude.Text.{codes, in_range, strip, lower}
use prisma_sdwan_mcp.Prelude.Result.{err, ok}
use prisma_sdwan_mcp.Value.{
  Value, null, str, list, dict, Fields, end, field, Items, nil, cons, get_or_null, dicts,
}
use prisma_sdwan_mcp.Errors.{many_records, resolution}
use prisma_sdwan_mcp.Resolver.Records.{records, project, to_text}
use prisma_sdwan_mcp.Resolver.{
  Resolution, ambiguous, Services, has_id, has_name, holds_name, select, find, require_one,
  in_scope, site_of, site_element,
}
use prisma_sdwan_mcp.Resolver.Precedence.{IsBest, select_iff}
use prisma_sdwan_mcp.Resolver.Single.{Finds, require_one_unique, require_one-ambiguous}
use prisma_sdwan_mcp.Resolver.Sites.{site_element-in_scope}

resolver : Unit {0}
unfolding site_element require_one find select has_id has_name holds_name codes in_range records
    get_or_null project lower strip ambiguous site_of in_scope to_text
resolver = tt

abbrev row : String → String → Value → Fields
row i n site = field "id" (str (codes i)) (field "name" (str (codes n)) (field "site_id" site end))

abbrev sites : Items
sites = cons (dict (row "s1" "Paris" null)) (cons (dict (row "s2" "Paris-2" null)) nil)

abbrev elements : Items
elements = cons (dict (row "e1" "edge" (str (codes "s1")))) (
    cons (dict (row "e2" "edge-b" (str (codes "s2"))))
      (cons (dict (row "e3" "edge-c" (str (codes "s2")))) nil))

abbrev inventory : Services
inventory = record {
  resource_alias = λ kind. ok (record {
    action_id = kind;
    match_fields = "name" ∷ [];
    projection = "id" ∷ "name" ∷ "site_id" ∷ [];
  });
  execute = λ action paths. if str_eq action "site" then ok (list sites) else ok (list elements);
  repr = λ v. [];
}

select_iff_example :
    In
      (row "e1" "edge" (str (codes "s1")))
      (select inventory.repr ("name" ∷ []) (codes "EDGE") (dicts elements))
    ↔ IsBest inventory.repr
        ("name" ∷ [])
        (codes "EDGE")
        (dicts elements)
        (row "e1" "edge" (str (codes "s1")))
select_iff_example =
    select_iff inventory.repr ("name" ∷ []) (codes "EDGE") (dicts elements)
      (row "e1" "edge" (str (codes "s1")))

abbrev paris : Fields
paris = field "id" (str (codes "s1")) (field "name" (str (codes "Paris")) end)

require_paris : require_one inventory "site" (codes " paris ") end ≡ ok paris
unfolding resolver
require_paris = refl

require_one-unique_example : Finds inventory "site" (codes " paris ") end (paris ∷ [])
require_one-unique_example =
    require_one_unique inventory "site" (codes " paris ") end paris require_paris

abbrev both : Resolution
both = record {
  kind = "site";
  requested = codes "par";
  matches = paris ∷ field "id" (str (codes "s2")) (field "name" (str (codes "Paris-2")) end) ∷ [];
}

require_one-ambiguous_test :
    require_one inventory "site" (codes "par") end
    ≡ err (resolution (many_records 2 "site" (codes "par")) both.matches)
unfolding resolver
require_one-ambiguous_test = require_one-ambiguous inventory "site" (codes "par") end both refl refl

site_element-in_scope_example :
    (r : Fields) × (◌≡◌ {A = Option Fields} (some (row "e1" "edge" (str (codes "s1")))) (some r))
    × (str (codes "e1") ≡ get_or_null "id" r)
    × (str (codes "s1") ≡ get_or_null "id" paris)
    × (in_scope (get_or_null "id" paris) r ≡ true)
unfolding resolver
site_element-in_scope_example =
    site_element-in_scope inventory (codes "Paris") (codes "edge") paris
      (record {
        site_id = str (codes "s1");
        element_id = str (codes "e1");
        element_record = some (row "e1" "edge" (str (codes "s1")));
      })
      refl refl refl refl refl
