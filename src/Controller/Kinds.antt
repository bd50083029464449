-- ===== src/Controller/Kinds.antt =====
-- AddGVK of common/pkg/util/gvk.go.
use supernetes.Prelude.{String, List, [], ◌∷◌, Bool, true, false, Option, none, some}

-- `schema.GroupVersionKind`
pub record Gvk : Type 0 where
  pub group : String
  pub version : String
  pub kind : String

-- what scheme.ObjectKinds returns: nothing on an error, else the kinds and `unversioned`
abbrev pub ObjectKinds : Type 0
ObjectKinds = Option (List Gvk × Bool)

-- the kind that is set, or nothing on an error
unfoldable pub add_gvk : ObjectKinds → Option Gvk
add_gvk none = none
add_gvk (some (gvks, true)) = none
add_gvk (some ([], false)) = none
add_gvk (some (gvk ∷ [], false)) = some gvk
add_gvk (some (a ∷ b ∷ gvks, false)) = none
