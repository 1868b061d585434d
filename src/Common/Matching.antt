-- ===== src/Common/Matching.antt =====
-- tools/common.py: `match_named` beside the resolver's `find`.
use prisma_sdwan_mcp.Prelude.{String, ◌≡◌, refl, List}
use prisma_sdwan_mcp.Value.{Value, Fields}
use prisma_sdwan_mcp.Common.{match_named}
use prisma_sdwan_mcp.Resolver.{select}
use prisma_sdwan_mcp.Prelude.Text.{Text, strip}

-- For a value without spaces around it, `match_named` selects what the resolver's `find` selects.
pub match_named-select :
    (repr : Value → Text) (fields : List String) (value : Text) (rs : List Fields)
    → strip value ≡ value
    → match_named repr fields value rs ≡ select repr fields value rs
unfolding match_named select
match_named-select repr fields value rs h = rw h refl
