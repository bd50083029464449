-- ===== src/Controller/Names/Lengths.antt =====
-- toLowerRFC1123 and podName: how long the results are.
use mathlib.Core.List.{reverse, reverse_aux}
use supernetes.Prelude.{
  ℕ, ◌+◌, ◌≤◌, ◌<◌, List, [], ◌∷◌, ◌++◌, ◌-◌, ◌≡◌, arith, length, length-append,
}
use supernetes.Prelude.Texts.{utf8_bytes}
use supernetes.Controller.Names.{
  is_full, dash, scan, map_lower, drop_dashes, trim_dashes, to_lower_rfc1123, prefix, suffix,
  pod_name,
}

scan-length :
    (max_len : ℕ) (result cs : List ℕ)
    → 0 < max_len
    → length result < max_len
    → length (scan max_len result cs) ≤ max_len
unfolding scan is_full
scan-length max_len result [] some fits = omega arith
scan-length max_len result (c ∷ cs) some fits = ground (
  arith,
  scan-length max_len result cs some fits,
  scan-length max_len (c ∷ result) cs some,
  scan-length max_len (dash ∷ result) cs some,
)

drop_dashes-length : (cs : List ℕ) → length (drop_dashes cs) ≤ length cs
unfolding drop_dashes
drop_dashes-length [] = omega arith
drop_dashes-length (c ∷ cs) = ground (arith, drop_dashes-length cs)

reverse_aux-length : (cs ys : List ℕ) → length (reverse_aux cs ys) ≡ length cs + length ys
reverse_aux-length [] ys = omega arith
reverse_aux-length (c ∷ cs) ys = omega (arith, reverse_aux-length cs (c ∷ ys))

-- A positive limit of toLowerRFC1123 bounds the number of code points of its result.
to_lower_rfc1123-length :
    (input : List ℕ) (max_len : ℕ) → 0 < max_len → length (to_lower_rfc1123 input max_len) ≤ max_len
unfolding to_lower_rfc1123 trim_dashes
to_lower_rfc1123-length input max_len some = omega (
  arith,
  scan-length max_len [] (map_lower input) some some,
  drop_dashes-length (scan max_len [] (map_lower input)),
  reverse_aux-length (drop_dashes (scan max_len [] (map_lower input))) [],
  drop_dashes-length (reverse (drop_dashes (scan max_len [] (map_lower input)))),
)

length-le-utf8_bytes : (cs : List ℕ) → length cs ≤ utf8_bytes cs
unfolding utf8_bytes
length-le-utf8_bytes [] = omega arith
length-le-utf8_bytes (c ∷ cs) = ground (arith, length-le-utf8_bytes cs)

-- A pod name has at most 63 characters, if the identifier and the index leave room for at least
-- one character of the name of the workload.
pod_name-length :
    (identifier name : List ℕ) (index : ℕ)
    → utf8_bytes (prefix identifier) + utf8_bytes (suffix index) < 63
    → length (pod_name identifier name index) ≤ 63
unfolding pod_name
pod_name-length identifier name index room =
    let limit = 63 - utf8_bytes (prefix identifier) - utf8_bytes (suffix index) in
    omega (
      arith,
      length-append (prefix identifier) (to_lower_rfc1123 name limit ++ suffix index),
      length-append (to_lower_rfc1123 name limit) (suffix index),
      to_lower_rfc1123-length name limit (omega arith),
      length-le-utf8_bytes (prefix identifier),
      length-le-utf8_bytes (suffix index),
    )
