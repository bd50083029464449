-- ===== src/Agent/Nodes/Memory.antt =====
-- The memory that a node reports as used.
use supernetes.Prelude.{ℕ, ◌*◌, ◌^◌, ◌≤◌, ◌<◌, ◌≡◌, arith}
use supernetes.Agent.Nodes.{SlurmNode, mib, to_node}

mib-small : (size : ℕ) → size < 2 ^ 44 → mib size ≡ size * 1048576
unfolding mib
mib-small size h = omega arith

-- The memory that a node reports as used is at most the memory that it reports to have, if Slurm
-- allocates no more than there is, and there are fewer than 2 ^ 44 MiB.
to_node-bounds :
    (n : SlurmNode)
    → n.alloc_memory ≤ n.real_memory
    → n.real_memory < 2 ^ 44
    → (to_node n).status.ws_bytes ≤ (to_node n).mem_bytes
unfolding to_node
to_node-bounds n alloc small =
    ground (arith, mib-small n.alloc_memory (omega arith), mib-small n.real_memory small)
