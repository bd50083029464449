-- ===== src/Labels.antt =====
-- The identifiers of common/pkg/supernetes: scopes, label keys and workload kinds.
use supernetes.Prelude.{String}

abbrev pub namespace_workload : String
namespace_workload = "supernetes-workload"

abbrev pub label_workload_kind : String
label_workload_kind = "supernetes-workload/kind"

-- Spelled as the source spells it.
abbrev pub label_workload_identifier : String
label_workload_identifier = "supernetes-workload/idenfitier"

abbrev pub label_additional_nodes : String
label_additional_nodes = "supernetes-workload/additional-nodes"

abbrev pub scope_extra : String
scope_extra = "supernetes-extra"

abbrev pub scope_option : String
scope_option = "supernetes-option"

abbrev pub kind_untracked : String
kind_untracked = "untracked"

abbrev pub workload_unallocated : String
workload_unallocated = "supernetes-workload/unallocated"

abbrev pub container_placeholder : String
container_placeholder = "workload"

abbrev pub image_placeholder : String
image_placeholder = "none"
