-- ===== src/Tools/Monitoring/Tests.antt =====
-- A pivot of three entries, two of them of the same metric and path.
use prisma_sdwan_mcp.Prelude.{List, [], ◌∷◌}
use prisma_sdwan_mcp.Prelude.Int.{pos}
use prisma_sdwan_mcp.Prelude.Text.{codes}
use prisma_sdwan_mcp.Value.{int, str, end, field}
use prisma_sdwan_mcp.Tools.Monitoring.Pivot.{Entry, pivot}
use prisma_sdwan_mcp.Tools.Monitoring.Pivoted.{IsPivot, pivot-IsPivot}

abbrev three_entries : List Entry
three_entries =
    record {
      key = codes "p" ∷ [];
      first = field "path_id" (str (codes "p")) end;
      name = "jitter";
      value = int (pos 1);
    }
    ∷ record {
      key = codes "q" ∷ [];
      first = field "path_id" (str (codes "q")) end;
      name = "jitter";
      value = int (pos 2);
    }
    ∷ record { key = codes "p" ∷ []; first = end; name = "jitter"; value = int (pos 3) }
    ∷ []

pivot-IsPivot_example : IsPivot three_entries (pivot three_entries [])
pivot-IsPivot_example = pivot-IsPivot three_entries
