-- ===== src/Controller/Environment.antt =====
-- controller/pkg/environment: what the controller reads from its environment.
use supernetes.Prelude.{String, Option, none, some, if◌then◌else◌, ◌==◌, string_eq}

-- ControllerNamespace, ControllerServiceAccountName and ControllerAddress of common/pkg/supernetes
abbrev pub controller_namespace : String
controller_namespace = "SUPERNETES_CONTROLLER_NAMESPACE"

abbrev pub controller_service_account_name : String
controller_service_account_name = "SUPERNETES_CONTROLLER_SERVICEACCOUNT"

abbrev pub controller_address : String
controller_address = "SUPERNETES_CONTROLLER_ADDRESS"

-- `environment`; a `netip.Addr` that is not valid is `none`.
pub record Environment (A : Type 0) : Type 0 where
  pub namespace : String
  pub service_account_name : String
  pub address : Option A

-- `loadString`: the value, and whether there was no error
unfoldable pub load_string : (String → String) → String → Option String
load_string getenv name = if getenv name == "" then none else some (getenv name)

-- a string that is left at its zero value on an error
unfoldable pub or_empty : Option String → String
or_empty none = ""
or_empty (some s) = s

-- the getters' test `len(s) > 0`
unfoldable pub given : String → Option String
given s = if s == "" then none else some s

module _ {A : Type 0} where
  -- `parse_addr` is `netip.ParseAddr`; it returns the address that is not valid on an error.
  unfoldable pub load_controller_address : (String → Option A) → (String → String) → Option A
  load_controller_address parse_addr getenv =
      if getenv controller_address == "" then none else parse_addr (getenv controller_address)

  unfoldable pub load : (String → Option A) → (String → String) → Environment A
  unfolding load_controller_address load_string or_empty
  load parse_addr getenv = record {
    namespace = or_empty (load_string getenv controller_namespace);
    service_account_name = or_empty (load_string getenv controller_service_account_name);
    address = load_controller_address parse_addr getenv;
  }

  -- `ControllerNamespace`
  unfoldable pub namespace_of : Environment A → Option String
  unfolding given
  namespace_of e = given e.namespace

  -- `ControllerServiceAccountName`
  unfoldable pub service_account_of : Environment A → Option String
  unfolding given
  service_account_of e = given e.service_account_name

  -- `ControllerAddress`
  unfoldable pub address_of : Environment A → Option A
  address_of e = e.address
