-- ===== src/Tools/Shape/Core/Interfaces.antt =====
-- tools/core.py: the reply of `get_interfaces`.
use prisma_sdwan_mcp.Prelude.{
  Option-cases, if_kept, length, take, ℕ, refl, ◌⊎◌, inl, inr, false, not, ◌&&◌, Option, none, some,
  List, [], ◌∷◌, ◌++◌, map,
}
use prisma_sdwan_mcp.Prelude.Text.{Text, codes}
use prisma_sdwan_mcp.Value.{Value, list, dict, Fields, end, field, of_items, get, has, truthy}
use prisma_sdwan_mcp.Resolver.Records.{records, project, decimal}
use prisma_sdwan_mcp.Resolver.{given, SiteElement}
use prisma_sdwan_mcp.Response.Envelope.{count}
use prisma_sdwan_mcp.Response.Shape.{IsError, IsReply, structured_error-IsError}
use prisma_sdwan_mcp.Tools.{Log, Toolbox, ◌>>=◌, execute, ids_of, max_fanout, gather}
use prisma_sdwan_mcp.Tools.Replies.{Paging, quoted}
use prisma_sdwan_mcp.Tools.Shape.{
  apart, Yields, return-Yields, bind-Yields, refused-Yields, try_tool-IsReply, listing-Yields,
}
use prisma_sdwan_mcp.Tools.Domains.{id_paths}
use prisma_sdwan_mcp.Tools.Core.Interfaces.{
  tool, Mode, config, status, both, ambiguous_interfaces, no_interface, only_match, chosen, combine,
  reply_combined, reply_chosen, get_interfaces,
}

-- An early reply is an error.
abbrev IsChoice : Fields ⊎ List Fields → Type 0
IsChoice (inl reply) = IsError tool reply
IsChoice (inr rs) = Unit

ambiguous-IsError :
    (interface : Text) (matches : List Fields)
    → IsError tool (ambiguous_interfaces interface matches)
unfolding ambiguous_interfaces
ambiguous-IsError interface matches =
    structured_error-IsError (codes "ambiguous_match")
      (decimal (length matches) ++ (codes " interfaces match " ++ quoted interface)) tool
      (count 409)
      (field "candidates"
        (list (of_items (map (λ x. dict (project ("id" ∷ "name" ∷ "type" ∷ []) x)) matches))) end)

no_interface-IsError : (interface : Text) → IsError tool (no_interface interface)
unfolding no_interface
no_interface-IsError interface =
    structured_error-IsError (codes "not_found") (codes "no interface matches " ++ quoted interface)
      tool (count 404) end

only_match-IsChoice :
    (interface : Text) (matches : List Fields) → IsChoice (only_match interface matches)
unfolding only_match
only_match-IsChoice interface [] = no_interface-IsError interface
only_match-IsChoice interface (m ∷ []) = tt
only_match-IsChoice interface (m ∷ m' ∷ ms) = ambiguous-IsError interface (m ∷ m' ∷ ms)

chosen-IsChoice :
    (repr : Value → Text) (configs : List Fields) (interface : Option Text)
    → IsChoice (chosen repr configs interface)
unfolding chosen
chosen-IsChoice repr configs interface = elim (Option-cases (given interface)) [
  | inl e ↦ rw (chosen, e) tt
  | inr (name, e) ↦ rw (chosen, e) (only_match-IsChoice name _)
]

module _ (b : Toolbox) where
  reply_combined-Yields :
      (ids : SiteElement) (mode : Mode) (element : Text) (paging : Paging) (configs : List Fields)
      (most : ℕ) (combined : List Fields)
      → Yields (IsReply tool) (reply_combined b ids mode element paging configs most combined)
  unfolding reply_combined has get
  reply_combined-Yields ids mode element paging configs most combined =
      listing-Yields b tool _ "interfaces" paging _ none false _ (apart refl refl refl refl)

  read_statuses-Yields :
      (ids : SiteElement) (mode : Mode) (element : Text) (paging : Paging) (configs : List Fields)
      → Yields (IsReply tool) (
          max_fanout b >>= λ most. gather (combine b ids mode) (take most configs) >>= λ combined.
          reply_combined b ids mode element paging configs most combined)
  read_statuses-Yields ids mode element paging configs =
      bind-Yields (IsReply tool) (max_fanout b) _ (λ most.
        bind-Yields (IsReply tool) (gather (combine b ids mode) (take most configs)) _
          (λ combined. reply_combined-Yields ids mode element paging configs most combined))

  reply_chosen-Yields :
      (ids : SiteElement) (mode : Mode) (element : Text) (paging : Paging)
      (choice : Fields ⊎ List Fields)
      → IsChoice choice
      → Yields (IsReply tool) (reply_chosen b ids mode element paging choice)
  unfolding reply_chosen has get
  reply_chosen-Yields ids mode element paging (inl reply) e =
      return-Yields (IsReply tool) reply (inr e)
  reply_chosen-Yields ids config element paging (inr configs) e =
      listing-Yields b tool _ "interfaces" paging _ none false _ (apart refl refl refl refl)
  reply_chosen-Yields ids status element paging (inr configs) e =
      read_statuses-Yields ids status element paging configs
  reply_chosen-Yields ids both element paging (inr configs) e =
      read_statuses-Yields ids both element paging configs

  pub get_interfaces-IsReply :
      (element : Text) (site : Option Text) (mode : Mode) (interface : Option Text)
      (paging : Paging) (log : Log)
      → IsReply (codes "get_interfaces") (get_interfaces b element site mode interface paging log).0
  unfolding get_interfaces
  get_interfaces-IsReply element site mode interface paging log =
      try_tool-IsReply b tool _
        (bind-Yields (IsReply tool) (ids_of b site (some element)) _ (λ ids.
          if_kept (Yields (IsReply tool)) (not (truthy ids.site_id && truthy ids.element_id)) _ _
            (refused-Yields "invalid_argument"
              "both site_id and element_id are required after resolution" tool 400)
            (bind-Yields (IsReply tool) (execute b "sites_devices.interfaces" (id_paths ids) none) _
              (λ data_.
                reply_chosen-Yields ids mode element paging
                  (chosen b.repr (records data_) interface)
                  (chosen-IsChoice b.repr (records data_) interface)))))
        log
