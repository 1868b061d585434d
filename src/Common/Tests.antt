-- ===== src/Common/Tests.antt =====
-- The helpers on interfaces named "1" and "17", and their theorems at them.
use prisma_sdwan_mcp.Prelude.{String, ◌≡◌, refl, true, List, [], ◌∷◌}
use prisma_sdwan_mcp.Value.{Value, null, bool, str, Fields, end, field, get, get_or_null, has, set}
use prisma_sdwan_mcp.Errors.{name_required, Failure, resolution}
use prisma_sdwan_mcp.Prelude.Text.{
  Text, codes, in_range, is_space, text_eq, starts_with, contains, strip, lower,
}
use prisma_sdwan_mcp.Resolver.Records.{to_text}
use prisma_sdwan_mcp.Resolver.{has_id, has_name, holds_name, select}
use prisma_sdwan_mcp.Response.{is_retryable_error, own_fields, add_details, structured_error}
use prisma_sdwan_mcp.Response.Errors.{structured_error-get}
use prisma_sdwan_mcp.Common.{
  handle_error, match_named, state_of, count_one, count_states, insert_count, sort_counts,
  summarize_states,
}
use prisma_sdwan_mcp.Common.Matching.{match_named-select}
use prisma_sdwan_mcp.Common.Counting.{count_of, occurrences, summarize_states-occurrences}
use prisma_sdwan_mcp.Common.Handling.{HasClass, handle_error-HasClass}

helpers : Unit {0}
unfolding match_named has_id has_name holds_name codes in_range get_or_null get to_text lower strip
    is_space text_eq contains starts_with summarize_states sort_counts count_states state_of
    count_one insert_count structured_error add_details own_fields is_retryable_error has set
helpers = tt

abbrev interface_row : String → String → Fields
interface_row name state =
    field "id" (str (codes "i"))
      (field "name" (str (codes name)) (field "state" (str (codes state)) end))

abbrev interfaces : List Fields
interfaces = interface_row "17" "up" ∷ interface_row "1" "down" ∷ interface_row "18" "up" ∷ []

abbrev no_repr : Value → Text
no_repr v = []

one_is_single :
    match_named no_repr ("name" ∷ []) (codes "1") interfaces ≡ interface_row "1" "down" ∷ []
unfolding helpers
one_is_single = refl

stripped : strip (codes "1") ≡ codes "1"
unfolding helpers
stripped = refl

match_named-select_example :
    match_named no_repr ("name" ∷ []) (codes "1") interfaces
    ≡ select no_repr ("name" ∷ []) (codes "1") interfaces
match_named-select_example =
    match_named-select no_repr ("name" ∷ []) (codes "1") interfaces stripped

two_up :
    summarize_states no_repr ("state" ∷ []) interfaces ≡ (codes "down", 1) ∷ (codes "up", 2) ∷ []
unfolding helpers
two_up = refl

summarize_states-occurrences_test :
    count_of (codes "up") (summarize_states no_repr ("state" ∷ []) interfaces)
    ≡ occurrences no_repr ("state" ∷ []) (codes "up") interfaces
summarize_states-occurrences_test =
    summarize_states-occurrences no_repr ("state" ∷ []) (codes "up") interfaces

abbrev ambiguous_failure : Failure
ambiguous_failure = resolution (name_required "site") (interface_row "1" "up" ∷ [])

handle_error-HasClass_example :
    HasClass
      (handle_error (λ f. []) (codes "t") ambiguous_failure (field "code" null end))
      ("ambiguous_match", 409)
handle_error-HasClass_example =
    handle_error-HasClass (λ f. []) (codes "t") ambiguous_failure (field "code" null end)

own_code : has "code" (own_fields (codes "c") (codes "m") (codes "t") null) ≡ true
unfolding helpers
own_code = refl

structured_error-get_test :
    get "code"
      (structured_error (codes "c") (codes "m") (codes "t") null (field "code" (bool true) end))
    ≡ get "code" (own_fields (codes "c") (codes "m") (codes "t") null)
structured_error-get_test =
    structured_error-get (codes "c") (codes "m") (codes "t") null (field "code" (bool true) end)
      "code" own_code
