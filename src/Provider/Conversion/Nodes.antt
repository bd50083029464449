-- ===== src/Provider/Conversion/Nodes.antt =====
-- `getNodes` of conversion.go against the node list that the agent writes for sbatch.
use supernetes.Prelude.{String, ◌≡◌, some, string_eq}
use supernetes.Prelude.Dict.{lookup}
use supernetes.Prelude.Texts.{◌++◌, join, join-cons_split, comma}
use supernetes.Labels.{label_additional_nodes}
use supernetes.Kube.{Pod}
use supernetes.Provider.Conversion.{get_nodes}

-- With an additional-nodes label, joining the nodes of a pod with commas, as the agent does for
-- `--nodelist`, gives the primary node, a comma, and the text of the label, unchanged.
join-get_nodes :
    (pod : Pod) (node additional : String)
    → lookup label_additional_nodes pod.meta.labels ≡ some additional
    → join comma (get_nodes pod node) ≡ node ++ ("," ++ additional)
unfolding get_nodes
join-get_nodes pod node additional h = rw (h, get_nodes) (join-cons_split comma node additional)
