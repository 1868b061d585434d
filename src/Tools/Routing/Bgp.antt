-- ===== src/Tools/Routing/Bgp.antt =====
-- tools/routing_diagnostics.py: the BGP status of `get_routing`.
use prisma_sdwan_mcp.Prelude.{
  ltb, ◌==◌, if◌then◌else◌, length, take, drop, any, keep, ℕ, ◌-◌, String, Bool, false, ◌&&◌, ◌||◌,
  none, some, List, [], ◌∷◌, ◌++◌, map,
}
use prisma_sdwan_mcp.Prelude.Text.{Text, codes, text_eq, lower}
use prisma_sdwan_mcp.Prelude.Int.{ℤ, pos, negsuc}
use prisma_sdwan_mcp.Prelude.Result.{Result, err, ok}
use prisma_sdwan_mcp.Errors.{Failure, unexpected}
use prisma_sdwan_mcp.Value.{
  Value, bool, int, real, str, dict, Fields, end, field, get, get_or_null, has, set, truthy,
}
use prisma_sdwan_mcp.Resolver.Records.{records, decimal, to_text}
use prisma_sdwan_mcp.Resolver.{found, SiteElement}
use prisma_sdwan_mcp.Response.Envelope.{count}
use prisma_sdwan_mcp.Tools.{
  Toolbox, Step, return, raising, ◌>>=◌, execute, max_fanout, gather, first_truthy,
}
use prisma_sdwan_mcp.Tools.Replies.{Paging, listing}
use prisma_sdwan_mcp.Tools.Domains.{id_paths}
use prisma_sdwan_mcp.Tools.Monitoring.Flows.{add_int, int_or_zero}

abbrev pub tool : Text
tool = codes "get_routing"

unfoldable pub is_one_of : List String → Text → Bool
is_one_of names t = any (λ n. text_eq (codes n) t) names

-- The class of the exception of `int(value or 0)`.
int_error : Value → Failure
unfolding codes
int_error (str s) = unexpected (codes "ValueError")
int_error v = unexpected (codes "TypeError")

-- A number of prefixes: `int(fs.get(key) or 0)`.
prefix_count : (Text → ℤ) → Fields → String → Result Failure ℤ
unfolding int_error
prefix_count truncate fs key = elim (int_or_zero truncate (get_or_null key fs)) [
  | none ↦ err (int_error (get_or_null key fs))
  | some z ↦ ok z
]

two_counts : (Text → ℤ) → Fields → String → String → Result Failure ℤ
unfolding prefix_count
two_counts truncate fs k k' = elim (prefix_count truncate fs k) [
  | err e ↦ err e
  | ok m ↦ elim (prefix_count truncate fs k') [ err e ↦ err e | ok n ↦ ok (add_int m n) ]
]

-- The numbers of reachable and of filtered prefixes.
abbrev pub Prefixes : Type 0
Prefixes = ℤ × ℤ

explicit_counts : (Text → ℤ) → Fields → Result Failure Prefixes
unfolding two_counts
explicit_counts truncate fs =
    elim (two_counts truncate fs "reachable_ipv4_prefixes_count" "reachable_ipv6_prefixes_count") [
      | err e ↦ err e
      | ok reachable ↦
          elim (two_counts truncate fs "filtered_ipv4_prefixes_count"
            "filtered_ipv6_prefixes_count") [
              | err e ↦ err e
              | ok filtered ↦ ok (reachable, filtered)
            ]
    ]

-- `value in (True, "true", "yes", 1, "1")`
is_marked : Value → Bool
unfolding codes
is_marked (bool flag) = flag
is_marked (int (pos n)) = n == 1
is_marked (real t) = text_eq t (codes "1.0")
is_marked (str s) = is_one_of ("true" ∷ "yes" ∷ "1" ∷ []) s
is_marked v = false

module _ (repr : Value → Text) where
  -- `str(item.get(k1) or … or "").lower()`
  unfoldable pub state_text : List String → Fields → Text
  state_text ks item =
      let v = first_truthy ks item in if truthy v then lower (to_text repr v) else []

  unfoldable pub is_established : Fields → Bool
  is_established item =
      is_one_of ("established" ∷ "up" ∷ "connected" ∷ [])
        (state_text ("state" ∷ "status" ∷ "session_state" ∷ "bgp_state" ∷ []) item)

  unfoldable pub mark_established : Fields → Fields
  mark_established item = set "established" (bool (is_established item)) item

  is_filtered : Fields → Bool
  unfolding is_marked
  is_filtered row =
      is_marked (get_or_null "filtered" row)
      || is_one_of ("filtered" ∷ "denied" ∷ "rejected" ∷ [])
          (state_text ("status" ∷ "state" ∷ []) row)

  counted_rows : List Fields → Prefixes
  unfolding is_filtered
  counted_rows rows = (pos (length rows), pos (length (keep is_filtered rows)))

  -- The numbers that the first record gives, or else those of the records.
  from_rows : (Text → ℤ) → Prefixes → List Fields → Result Failure Prefixes
  unfolding explicit_counts counted_rows
  from_rows truncate found [] = ok found
  from_rows truncate found (first ∷ rows) =
      if has "reachable_ipv4_prefixes_count" first || has "reachable_ipv6_prefixes_count" first
      then explicit_counts truncate first
      else ok (counted_rows (first ∷ rows))

  is_zero : ℤ → Bool
  is_zero (pos n) = n == 0
  is_zero (negsuc n) = false

  -- The numbers that an object gives itself; if none is reachable, those of its records.
  unfoldable pub prefix_counts : (Text → ℤ) → Value → Result Failure Prefixes
  unfolding explicit_counts from_rows is_zero
  prefix_counts truncate (dict fs) = elim (explicit_counts truncate fs) [
    | err e ↦ err e
    | ok found ↦ if is_zero found.0 then from_rows truncate found (records (dict fs)) else ok found
  ]
  prefix_counts truncate v = from_rows truncate (pos 0, pos 0) (records v)

  annotated : Fields → Prefixes → Fields
  unfolding is_zero set
  annotated item found =
      set "established_zero_prefixes"
        (bool (truthy (get_or_null "established" item) && is_zero found.0))
        (set "filtered_prefix_count" (int found.1)
          (set "reachable_prefix_count" (int found.0) item))

  with_prefixes : (Text → ℤ) → Fields → Value → Result Failure Fields
  unfolding prefix_counts annotated get set
  with_prefixes truncate item prefixes =
      let counted : Result Failure Fields = elim (prefix_counts truncate prefixes) [
        | err e ↦ err e
        | ok found ↦ ok (annotated item found)
      ] in
      elim prefixes [
        | dict fs ↦ elim (get "error" fs) [
          | some error ↦ ok (set "prefix_error" error item)
          | none ↦ counted
        ]
        | _ ↦ counted
      ]

module _ (b : Toolbox) (truncate : Text → ℤ) where
  -- One peer with the numbers of its prefixes; one without an id stays as it is.
  unfoldable pub add_prefixes : SiteElement → Fields → Step (List Fields)
  unfolding with_prefixes
  add_prefixes ids item =
      let peer_id = first_truthy ("id" ∷ "peer_id" ∷ []) item in
      if truthy peer_id
      then (do
        prefixes ←
            execute b "routing_bgp_ospf.bgppeers_reachableprefixes"
              (field "site_id" ids.site_id
                (field "element_id" ids.element_id (field "bgppeer_id" peer_id end)))
              none
        item' ← raising (with_prefixes b.repr truncate item prefixes)
        return (item' ∷ []))
      else return (item ∷ [])

  unfoldable pub is_zero_peer : Fields → Bool
  is_zero_peer item = truthy (get_or_null "established_zero_prefixes" item)

  unfoldable pub status_extra : SiteElement → ℕ → ℕ → Fields → Fields
  unfolding codes
  status_extra ids established others more = set "element_id" ids.element_id (
      set "site_id" ids.site_id (
        set "operation" (str (codes "bgp_status")) (
          field "established_count" (count established)
            (field "not_established_count" (count others) more))))

  unfoldable pub status_reply : SiteElement → Paging → ℕ → Fields → List Fields → Step Fields
  unfolding status_extra codes decimal
  status_reply ids paging established more items_ =
      let others = length items_ - established in
      listing b tool
        (codes "BGP status: "
          ++ (decimal established
              ++ (codes " established, " ++ (decimal others ++ codes " not established"))))
        "items" paging (status_extra ids established others more) none false (map dict items_)

  -- The reply with the prefixes of the first peers.
  unfoldable pub prefixed_reply : SiteElement → Paging → ℕ → List Fields → Step Fields
  unfolding status_reply is_zero_peer
  prefixed_reply ids paging established items_ = do
    most ← max_fanout b
    checked ← gather (add_prefixes ids) (take most items_)
    status_reply ids paging established
        (field "zero_prefix_peers" (count (length (keep is_zero_peer checked)))
          (field "prefix_fanout_capped" (bool (ltb most (length items_))) end))
        (checked ++ drop most items_)

  unfoldable pub bgp_status : SiteElement → Bool → Paging → Step Fields
  unfolding prefixed_reply status_reply
  bgp_status ids include_prefixes paging = do
    data_ ← execute b "routing_bgp_ospf.bgppeers_status" (id_paths ids) none
    let items_ = map (mark_established b.repr) (records data_)
    let established = length (keep (is_established b.repr) (records data_))
    if include_prefixes
        then prefixed_reply ids paging established items_
        else status_reply ids paging established end items_
