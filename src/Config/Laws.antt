-- ===== src/Config/Laws.antt =====
-- Bounds of the numeric settings, and what counts as a configured credential.
use prisma_sdwan_mcp.Prelude.{ℕ, ◌≤◌, min, String, ◌≡◌, refl, true, some, List, [], ◌∷◌, arith}
use prisma_sdwan_mcp.Prelude.Text.{Text}
use prisma_sdwan_mcp.Prelude.Result.{Result, err, ok, ◌>>=◌}
use prisma_sdwan_mcp.Config.{
  Env, ConfigError, default_page_size, max_page_size, int_env, get_max_page_size,
  get_default_page_size, is_set, first_set,
}

-- A setting that is read is never below its minimum, if its default is not.
pub int_env-le :
    (env : Env) (name : String) (default minimum value : ℕ)
    → minimum ≤ default
    → int_env env name default minimum ≡ ok value
    → minimum ≤ value
unfolding int_env
int_env-le env name default minimum value h e = ground (arith)

-- What `get_default_page_size` returns is the smaller of two settings that are read.
default_page_size_parts :
    (asked most : Result ConfigError ℕ) (size : ℕ)
    → (asked >>= λ a. most >>= λ m. ok (min a m)) ≡ ok size
    → (a m : ℕ) × (asked ≡ ok a) × (most ≡ ok m) × (size ≡ min a m)
default_page_size_parts (ok a) (ok m) size e = (a, m, refl, refl, ground arith)
default_page_size_parts (ok a) (err x) size e = cc
default_page_size_parts (err x) most size e = cc

-- The default page size is positive and never passes the largest page size.
pub default_page_size_bounds :
    (env : Env) (size most : ℕ)
    → get_default_page_size env ≡ ok size
    → get_max_page_size env ≡ ok most
    → (1 ≤ size) × (size ≤ most)
unfolding get_default_page_size
default_page_size_bounds env size most e f =
    let (a, m, asked, found, same) =
      default_page_size_parts (int_env env "MCP_DEFAULT_PAGE_SIZE" default_page_size 1)
        (int_env env "MCP_MAX_PAGE_SIZE" max_page_size 1) size e in
    let lo : 1 ≤ a =
      int_env-le env "MCP_DEFAULT_PAGE_SIZE" default_page_size 1 a (omega arith) asked in
    let hi : 1 ≤ m = int_env-le env "MCP_MAX_PAGE_SIZE" max_page_size 1 m (omega arith) found in
    let agree : m ≡ most = cc in (omega arith, omega arith)

-- A credential that is read is not blank, and it is the first of its names that is not.
pub first_set-is_set :
    (env : Env) (names : List String) (value : Text)
    → first_set env names ≡ some value
    → is_set (some value) ≡ true
unfolding first_set is_set
first_set-is_set env [] value e = cc
first_set-is_set env (name ∷ names) value e = ground (arith, first_set-is_set env names value)
