-- ===== src/Response/Walk/Tests.antt =====
-- A listing of two records by response.py, and the theorems on its replies.
use prisma_sdwan_mcp.Prelude.{
  ltb→lt, take, ◌^◌, ◌<◌, ◌≡◌, refl, ◌⊎◌, true, none, some, List, [], ◌∷◌, arith,
}
use prisma_sdwan_mcp.Prelude.Text.{Text, codes}
use prisma_sdwan_mcp.Prelude.Int.{pos}
use prisma_sdwan_mcp.Config.{Env, int_env, get_max_page_size}
use prisma_sdwan_mcp.Value.{Value, int, Fields, end, get, has}
use prisma_sdwan_mcp.Response.Compact.{in_keys}
use prisma_sdwan_mcp.Response.Envelope.{take_fitting}
use prisma_sdwan_mcp.Response.Collection.{
  Listing, setting, page_limit, reply_for, page_of, response_budget, asked_limit,
}
use prisma_sdwan_mcp.Response.Cursor.{decode_cursor}
use prisma_sdwan_mcp.Response.Lookup.{IsFresh}
use prisma_sdwan_mcp.Response.Budget.{IsBounded, collection_json-IsBounded}
use prisma_sdwan_mcp.Response.Walk.{walk, AreShown, IsReadable, IsStopped}
use prisma_sdwan_mcp.Response.Walk.Complete.{collection_json-at, walk-AreShown}

abbrev no_settings : Env
no_settings name = none

abbrev repr : Value → Text
repr v = []

abbrev sites_listing : Listing
unfolding codes
sites_listing = record {
  tool = codes "t";
  summary = codes "s";
  key = "items";
  cursor = none;
  limit = int (pos 1);
  extra = end;
  budget = some 4000;
  full = true;
}

abbrev two_sites : List Value
two_sites = int (pos 1) ∷ int (pos 2) ∷ []

abbrev readable : IsReadable no_settings sites_listing 1 4000
unfolding page_limit response_budget asked_limit setting get_max_page_size int_env codes
readable = record {
  most = 200;
  asked = int (pos 1);
  largest = refl;
  wanted = refl;
  allowed = refl;
  bytes = refl;
  scalars = (omega arith, tt);
  every_detail = refl;
}

fresh : IsFresh sites_listing.key sites_listing.extra
unfolding sites_listing in_keys has get
fresh = record { own = refl; not_extra = refl; no_cursor = refl }

countable : 2 < 10 ^ 4300
countable = ltb→lt _ _ refl

walk-AreShown_example :
    ((shown : List Value) × (walk repr no_settings [] sites_listing two_sites 3 none ≡ some shown)
      × AreShown repr two_sites shown)
    ⊎ IsStopped repr no_settings [] sites_listing two_sites 4000 none two_sites
walk-AreShown_example =
    walk-AreShown repr no_settings [] sites_listing two_sites 1 4000 readable countable fresh

abbrev first_page : Fields
first_page =
    reply_for repr (page_of [] sites_listing two_sites) end 4000
      (take_fitting (page_of [] sites_listing two_sites) end 4000 (take 1 two_sites) [] 0)

collection_json-IsBounded_example : IsBounded repr no_settings [] sites_listing two_sites first_page
unfolding decode_cursor sites_listing
collection_json-IsBounded_example =
    collection_json-IsBounded repr no_settings [] sites_listing two_sites first_page (
      collection_json-at repr no_settings [] sites_listing two_sites 1 4000 readable countable fresh
        none 0 refl)
