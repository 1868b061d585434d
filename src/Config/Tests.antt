-- ===== src/Config/Tests.antt =====
-- Settings read from concrete environments, and the theorems on them at such inputs.
use prisma_sdwan_mcp.Prelude.{
  if◌then◌else◌, ◌≤◌, ◌≡◌, refl, true, none, some, [], ◌∷◌, arith, str_eq,
}
use prisma_sdwan_mcp.Prelude.Text.{codes, in_range, is_space}
use prisma_sdwan_mcp.Prelude.Int.{parse_int}
use prisma_sdwan_mcp.Prelude.Result.{ok}
use prisma_sdwan_mcp.Config.{
  Env, int_env, get_max_page_size, get_default_page_size, is_set, first_set, get_ion_credentials,
}
use prisma_sdwan_mcp.Config.Laws.{int_env-le, default_page_size_bounds, first_set-is_set}

config : Unit {0}
unfolding int_env get_default_page_size get_ion_credentials parse_int codes in_range is_space
config = tt

abbrev env : Env
env name =
    if str_eq name "MCP_DEFAULT_PAGE_SIZE"
    then some (codes " 1_000 ")
    else if str_eq name "MCP_MAX_PAGE_SIZE"
    then some (codes "+80")
    else if str_eq name "ION_PRIVATE_KEY"
    then some (codes " ")
    else if str_eq name "PRISMA_ION_PASSWORD"
    then some (codes "pw")
    else none

page_sizes : (get_default_page_size env ≡ ok 80) × (get_max_page_size env ≡ ok 80)
unfolding config
page_sizes = (refl, refl)

blank_key : (get_ion_credentials env).private_key ≡ none
unfolding config
blank_key = refl

int_env-le_test : 1 ≤ 80
unfolding get_max_page_size
int_env-le_test = int_env-le env "MCP_MAX_PAGE_SIZE" 200 1 80 (omega arith) page_sizes.1

default_page_size_bounds_test : (1 ≤ 80) × (80 ≤ 80)
default_page_size_bounds_test = default_page_size_bounds env 80 80 page_sizes.0 page_sizes.1

password_set : first_set env ("ION_PASSWORD" ∷ "PRISMA_ION_PASSWORD" ∷ []) ≡ some (codes "pw")
unfolding config
password_set = refl

first_set-is_set_test : is_set (some (codes "pw")) ≡ true
first_set-is_set_test =
    first_set-is_set env ("ION_PASSWORD" ∷ "PRISMA_ION_PASSWORD" ∷ []) (codes "pw") password_set
