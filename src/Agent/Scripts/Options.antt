-- ===== src/Agent/Scripts/Options.antt =====
-- composeScript: the options that the agent sets, and those of the workload.
use mathlib.Core.Option
use supernetes.Prelude.{String, ◌≡◌, Option, some, string_eq}
use supernetes.Prelude.Texts.{◌++◌}
use supernetes.Prelude.Dict.{Dict, lookup, IsDistinct}
use supernetes.Agent.Scripts.{Environment, option_lines}

-- the line of an option
abbrev pub line_of : Environment → String → String → String
line_of env option value = "#SBATCH --" ++ (option ++ (" " ++ (env.quote value ++ "\n")))

-- A range over a map visits every entry, and every entry once.
abbrev pub IsOrder : (Dict String String → Dict String String) → Type 0
IsOrder order =
    (d : Dict String String)
    → IsDistinct d
    → IsDistinct (order d) × ((k : String) → lookup k (order d) ≡ lookup k d)

-- The head of a script holds the line of an option with its value, and there is no other line of
-- this option among its option lines.
abbrev pub IsWritten : Environment → String → String → String → Type 0
IsWritten env k v script =
    (opts : Dict String String) × (rest : String) × (script
      ≡ "#!/bin/bash\n" ++ (option_lines env opts ++ rest))
    × IsDistinct opts
    × (lookup k opts ≡ some v)
    × ((before : String) × (after : String) × (option_lines env opts
          ≡ before ++ (line_of env k v ++ after)))
