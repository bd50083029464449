-- ===== src/Agent/Filters.antt =====
-- config/pkg/config/filter.go, the filter of partitions and nodes.
use supernetes.Prelude.{String, Bool, true, Option, none, some}

-- `Filter`: its regular expressions, given by what `MatchString` returns
pub record Filter : Type 0 where
  pub partition_regex : String → Bool
  pub node_regex : String → Bool

-- A nil filter lets everything through.
unfoldable pub match_partition : Option Filter → String → Bool
match_partition none input = true
match_partition (some f) input = f.partition_regex input

unfoldable pub match_node : Option Filter → String → Bool
match_node none input = true
match_node (some f) input = f.node_regex input
