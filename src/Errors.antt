-- ===== src/Errors.antt =====
-- The exceptions of the program that a tool's handler tells apart: `ResolutionError` of resolver.py,
-- `CapabilityExecutionError` of executor.py and `RegistryError` of catalog.py. A message is a
-- constructor that holds the values which the code puts into its text.
use prisma_sdwan_mcp.Prelude.{ℕ, String, ◌≡◌, ap, Option, List}
use prisma_sdwan_mcp.Prelude.Result.{Result, err, ok}
use prisma_sdwan_mcp.Prelude.Text.{Text}
use prisma_sdwan_mcp.Value.{Value, Fields}

pub data ResolutionMessage : Type 0 where
  name_required : (kind : String) → ResolutionMessage
  unable_to_resolve : (kind : String) → Value → ResolutionMessage
  no_record : (kind : String) → Text → ResolutionMessage
  many_records : ℕ → (kind : String) → Text → ResolutionMessage
  -- the element, the records that match it, and the name or id of the site asked for
  other_site : Text → List Fields → Value → ResolutionMessage
  no_element : Text → Option Value → ResolutionMessage
  many_elements : ℕ → Text → Option Value → ResolutionMessage
  many_addresses : ℕ → (role : String) → Text → ResolutionMessage
  no_address : Text → ResolutionMessage

pub data CapabilityMessage : Type 0 where
  missing_paths : List Text → CapabilityMessage
  unknown_paths : (action : Text) → List Text → CapabilityMessage
  get_with_body not_an_object retrieved_fields : CapabilityMessage
  unknown_fields : (action : Text) → List Text → List Text → CapabilityMessage
  schema_violation : Text → CapabilityMessage
  no_namespace : Text → CapabilityMessage
  no_method : Text → Text → CapabilityMessage
  unable_to_bind : Text → Option Value → CapabilityMessage

pub data RegistryMessage : Type 0 where
  unknown_capability : Text → RegistryMessage
  duplicate_action : Text → RegistryMessage
  invalid_action_id : Text → RegistryMessage
  sdk_call_missing : Text → RegistryMessage
  unsupported_method : Text → RegistryMessage
  bad_path_parameter : Text → RegistryMessage
  unknown_domain : Text → RegistryMessage
  unsupported_kind : Text → RegistryMessage
  unable_to_load no_domains_list domain_without_name : RegistryMessage

pub data Failure : Type 0 where
  resolution : ResolutionMessage → (candidates : List Fields) → Failure
  capability : CapabilityMessage → Failure
  registry : RegistryMessage → Failure
  -- another exception, by the name of its class
  unexpected : Text → Failure

-- A result of the catalog; its error is a RegistryError.
abbrev pub of_catalog : {A : Type 0} → Result RegistryMessage A → Result Failure A
of_catalog (err m) = err (registry m)
of_catalog (ok a) = ok a

pub of_catalog-ok :
    {A : Type 0} (c : Result RegistryMessage A) (a : A) → of_catalog c ≡ ok a → c ≡ ok a
of_catalog-ok (ok x) a e = let same : x ≡ a = cc in ap (λ y. ok y) same
of_catalog-ok (err m) a e = cc
