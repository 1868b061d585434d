-- ===== src/Value/Entries.antt =====
-- Laws of the entries of an object.
use prisma_sdwan_mcp.Prelude.{if◌then◌else◌, String, ◌≡◌, refl, some, arith, str_eq, eq_iff}
use prisma_sdwan_mcp.Value.{Value, Fields, end, field, get, set}

pub get-set :
    (k j : String) (v : Value) (fs : Fields)
    → get j (set k v fs) ≡ (if str_eq k j then some v else get j fs)
unfolding get set
get-set k j v end = refl
get-set k j v (field i w fs) = ground (arith, eq_iff k j, eq_iff i k, eq_iff i j, get-set k j v fs)
