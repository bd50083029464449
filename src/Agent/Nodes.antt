-- ===== src/Agent/Nodes.antt =====
-- agent/pkg/server/node.go: the nodes that Slurm reports.
pub mod Memory
use supernetes.Prelude.{
  ℕ, ◌-◌, ◌*◌, ◌%◌, ◌^◌, String, List, [], ◌∷◌, Bool, true, false, Option, none, some, ltb,
  if◌then◌else◌,
}
use supernetes.Controller.Nodes.{Node}
use supernetes.Agent.Filters.{Filter, match_partition, match_node}

-- The parts of a `node.Node` that the agent reads. `free_bytes` is
-- `uint64(node.FreeMem.ToFloat() * 1024 * 1024)` and `cpu_load` is `node.CPULoad.ToFloat()`, which
-- is in hundredths.
pub record SlurmNode : Type 0 where
  pub name : String
  pub partitions : List String
  pub cpus : ℕ
  pub real_memory : ℕ
  pub alloc_memory : ℕ
  pub free_bytes : ℕ
  pub cpu_load : ℕ

-- the product of uint64
unfoldable pub mib : ℕ → ℕ
mib size = (size * 1024 * 1024) % 2 ^ 64

unfoldable pub to_node : SlurmNode → Node
unfolding mib
to_node n = record {
  name = n.name;
  cpu_count = n.cpus % 2 ^ 32;
  mem_bytes = mib n.real_memory;
  status = record {
    cpu_load = n.cpu_load;
    ws_bytes =
        if ltb (mib n.real_memory) n.free_bytes
        then mib n.alloc_memory
        else mib n.real_memory - n.free_bytes;
  };
}

unfoldable pub contains_func : (String → Bool) → List String → Bool
contains_func f [] = false
contains_func f (x ∷ xs) = let rest = contains_func f xs in if f x then true else rest

-- the loop of GetNodes: the nodes sent, and whether all of them could be; `send` is whether
-- `Send` returns no error.
unfoldable pub send_nodes : Option Filter → (Node → Bool) → List SlurmNode → List Node × Bool
unfolding match_partition match_node contains_func to_node
send_nodes filter send [] = ([], true)
send_nodes filter send (n ∷ ns) =
    let rest = send_nodes filter send ns in
    if match_node filter n.name
    then (if contains_func (match_partition filter) n.partitions
        then (if send (to_node n) then (to_node n ∷ rest.0, rest.1) else ([], false))
        else rest)
    else rest

-- `GetNodes`, given what ReadNodeData returns
unfoldable pub get_nodes :
    Option Filter → (Node → Bool) → Option (List SlurmNode) → List Node × Bool
unfolding send_nodes
get_nodes filter send none = ([], false)
get_nodes filter send (some nodes) = send_nodes filter send nodes
