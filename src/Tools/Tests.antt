-- ===== src/Tools/Tests.antt =====
-- The tools of tools/ on a controller that answers every call with one record.
use prisma_sdwan_mcp.Tools.Monitoring.Talkers.{total_of, exchanged, total_of-talkers}
use prisma_sdwan_mcp.Tools.Domains.Scope.Operations.{domain_tools-HasIds}
use prisma_sdwan_mcp.Prelude.{
  length, All, ℕ, ◌+◌, ◌*◌, ◌≤◌, ◌≡◌, refl, true, false, Option, none, some, List, [], ◌∷◌, ◌++◌,
}
use prisma_sdwan_mcp.Prelude.Text.{Text, codes, text_eq, strip}
use prisma_sdwan_mcp.Prelude.Int.{pos}
use prisma_sdwan_mcp.Prelude.Result.{err, ok}
use prisma_sdwan_mcp.Value.{
  Value, null, int, str, list, dict, Fields, end, field, of_items, get, get_or_null, truthy,
}
use prisma_sdwan_mcp.Catalog.Tests.{two_actions}
use prisma_sdwan_mcp.Catalog.Describe.{Registry}
use prisma_sdwan_mcp.Tools.{Call, Toolbox, continue, ◌>>=◌, execute, first_truthy}
use prisma_sdwan_mcp.Tools.Replies.{Paging}
use prisma_sdwan_mcp.Tools.Calls.{Adds, fanout_limit}
use prisma_sdwan_mcp.Tools.Domains.Network.{dhcp_servers, get_network_services}
use prisma_sdwan_mcp.Tools.Domains.Scope.{HasIds}
use prisma_sdwan_mcp.Tools.Core.Interfaces.{both, get_interfaces}
use prisma_sdwan_mcp.Tools.Core.Fanout.{AnyCall}
use prisma_sdwan_mcp.Tools.Core.Fanout.HealthView.{core_tools-Adds}
use prisma_sdwan_mcp.Tools.Monitoring.Flows.{
  add_int, int_or_zero, add_traffic, label, traffic, count_labels, talkers_from, most_common,
}
use prisma_sdwan_mcp.Tools.Monitoring.Totals.{total, IsDescending, flow_counts-total}
use prisma_sdwan_mcp.Tools.Policies.{families, sets, Scan, scan_families}
use prisma_sdwan_mcp.Tools.Policies.Families.{nothing_yet, IsScan, scan_families-IsScan}
use prisma_sdwan_mcp.Tools.Discovery.Catalog.{read_capability}
use prisma_sdwan_mcp.Tools.Discovery.Expert.{IsAllowed, read_capability-Adds}
use prisma_sdwan_mcp.Resolver.Records.{to_text}
use prisma_sdwan_mcp.Executor.Body.{accepted}
use prisma_sdwan_mcp.Executor.Dispatch.{raised, Executor}
use prisma_sdwan_mcp.Executor.Binding.{SdkCall}
use prisma_sdwan_mcp.Client.{World, Client}
use prisma_sdwan_mcp.Client.Tests.{overloaded, counted, ready, unset_env}
use prisma_sdwan_mcp.Tools.Live.{over_client, replay, live, Requests, core_tools-requests}

abbrev one_record : Value
one_record = dict (field "id" (int (pos 7)) (field "name" (str (115 ∷ [])) end))

abbrev pub box : Toolbox
box = record {
  answer = λ log c. ok (list (of_items (one_record ∷ [])));
  services = λ log. record {
    resource_alias = λ kind. ok (record {
      action_id = kind;
      match_fields = "name" ∷ [];
      projection = "id" ∷ "name" ∷ "site_id" ∷ [];
    });
    execute = λ action paths. ok (list (of_items (one_record ∷ [])));
    repr = λ v. [];
  };
  repr = λ v. [];
  text = λ e. [];
  env = λ name. none;
  now = [];
}

abbrev pub first_page : Paging
first_page = record { cursor = none; limit = null }

-- The site is named "s".
abbrev named_s : Option Text
named_s = some (115 ∷ [])

domain_tools-HasIds_example :
    (calls : List Call) × ((get_network_services box dhcp_servers named_s none none first_page []).1
      ≡ [] ++ calls)
    × All HasIds calls
    × (length calls ≤ 2)
domain_tools-HasIds_example =
    ((domain_tools-HasIds box named_s none none first_page false).0 dhcp_servers).added []

core_tools-Adds_example :
    (calls : List Call) × ((get_interfaces box (115 ∷ []) none both none first_page []).1
      ≡ [] ++ calls)
    × All AnyCall calls
    × (length calls ≤ 1 + fanout_limit box.env)
core_tools-Adds_example = ((core_tools-Adds box).0 (115 ∷ []) none both none first_page).added []

abbrev pub registry_of_two : Registry
registry_of_two = record { domains = []; actions = two_actions; expert_blocked_by_default = [] }

read_capability-Adds_example :
    Adds
      (IsAllowed box.env registry_of_two (strip (codes "sites.a")) end none)
      1
      (read_capability box registry_of_two (codes "sites.a") end none first_page false)
read_capability-Adds_example =
    read_capability-Adds box registry_of_two (codes "sites.a") end none first_page false

abbrev scanned : Scan
scanned = elim ((scan_families box sets families nothing_yet []).0) [
  | ok scan ↦ scan
  | err e ↦ nothing_yet
]

scan_families-IsScan_example :
    IsScan box sets [] scanned (scan_families box sets families nothing_yet []).1
unfolding scan_families execute ◌>>=◌ continue
scan_families-IsScan_example = scan_families-IsScan box sets [] scanned refl

abbrev two_flows : List Fields
two_flows = field "app_id" (str (115 ∷ [])) end ∷ field "app_id" (str (116 ∷ [])) end ∷ []

flow_counts-total_test :
    (total (most_common (count_labels (λ v. []) (λ t. pos 0) ("app_id" ∷ []) two_flows [])) ≡ 2)
    × IsDescending (most_common (count_labels (λ v. []) (λ t. pos 0) ("app_id" ∷ []) two_flows []))
flow_counts-total_test = flow_counts-total (λ v. []) (λ t. pos 0) ("app_id" ∷ []) two_flows

abbrev flow_between : ℕ → ℕ → Fields
flow_between s d =
    field "src_ip" (str (s ∷ []))
      (field "dst_ip" (str (d ∷ [])) (field "bytes_c2s" (int (pos 5)) end))

abbrev three_flows : List Fields
three_flows = flow_between 115 116 ∷ flow_between 117 116 ∷ flow_between 115 116 ∷ []

total_of-talkers_example :
    total_of (115 ∷ []) (116 ∷ []) (talkers_from (λ v. []) (λ t. pos 0) three_flows [])
    ≡ exchanged (λ v. []) (λ t. pos 0) (115 ∷ []) (116 ∷ []) three_flows (pos 0)
total_of-talkers_example = total_of-talkers (λ v. []) (λ t. pos 0) (115 ∷ []) (116 ∷ []) three_flows

two_of_three :
    total_of (115 ∷ []) (116 ∷ []) (talkers_from (λ v. []) (λ t. pos 0) three_flows []) ≡ pos 10
unfolding total_of talkers_from add_traffic label traffic first_truthy int_or_zero get_or_null get
    truthy to_text text_eq add_int codes
two_of_three = refl

-- The executor over a client whose SDK is overloaded for ever.
abbrev overloaded_executor : Executor (Client ℕ)
overloaded_executor = record {
  actions = two_actions;
  sdk = record {
    has_namespace = λ n. true;
    method = λ n m. some none;
    invoke = λ n m call c. (raised [], c);
  };
  patterns = [];
  check_schema = λ s v. accepted;
  marker = λ c. [];
}

abbrev one_world : Text → Text → SdkCall → World ℕ
one_world namespace name call = overloaded

abbrev requests_of_one : Requests one_world
requests_of_one = record {
  requests = λ n. n;
  counter = λ namespace name call. counted;
  agree = λ namespace name call n. refl;
}

abbrev over_overloaded : Executor (Client ℕ)
over_overloaded = over_client overloaded_executor one_world unset_env

core_tools-requests_example :
    (replay over_overloaded
      (get_interfaces (live over_overloaded box ready) (115 ∷ []) none both none first_page []).1
      ready).world
    ≤ 0 + 12 * (1 + fanout_limit box.env)
core_tools-requests_example =
    (core_tools-requests overloaded_executor one_world unset_env requests_of_one box ready).0
      (115 ∷ []) none both none first_page
