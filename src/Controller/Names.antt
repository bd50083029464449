-- ===== src/Controller/Names.antt =====
-- podName and toLowerRFC1123 of controller/pkg/workload/conversion.go, over code points.
pub mod Shape
pub mod Lengths
use mathlib.Core.List.{reverse}
use supernetes.Prelude.{
  ℕ, ◌+◌, ◌-◌, List, [], ◌∷◌, ◌++◌, Bool, true, false, not, ◌&&◌, ◌||◌, leb, ltb, nat_beq,
  if◌then◌else◌, length,
}
use supernetes.Prelude.Decimal.{decimal}
use supernetes.Prelude.Texts.{utf8_bytes}

-- the code points above Latin-1 that strings.ToLower takes into Latin-1: İ, Ÿ, ẞ, K and Å
unfoldable pub lower_special : ℕ → ℕ
lower_special c =
    if nat_beq c 0x130
    then b'i'
    else if nat_beq c 0x178
    then 0xff
    else if nat_beq c 0x1e9e
    then 0xdf
    else if nat_beq c 0x212a
    then b'k'
    else if nat_beq c 0x212b
    then 0xe5
    else c

-- strings.ToLower of a code point. Where the result lies above Latin-1 the code point is left as
-- it is: both lie above Latin-1, and the loop treats them alike.
unfoldable pub to_lower : ℕ → ℕ
unfolding lower_special
to_lower c =
    if (leb b'A' c && leb c b'Z') || (leb 0xc0 c && leb c 0xde && not (nat_beq c 0xd7))
    then c + 32
    else lower_special c

-- `c <= unicode.MaxLatin1 && (unicode.IsLetter(c) || unicode.IsDigit(c))`
unfoldable pub is_alphanumeric : ℕ → Bool
is_alphanumeric c =
    (leb b'0' c && leb c b'9')
    || (leb b'A' c && leb c b'Z')
    || (leb b'a' c && leb c b'z')
    || nat_beq c 0xaa
    || nat_beq c 0xb5
    || nat_beq c 0xba
    || (leb 0xc0 c && leb c 0xff && not (nat_beq c 0xd7) && not (nat_beq c 0xf7))

abbrev pub dash : ℕ
dash = b'-'

-- `result[len(result)-1] == '-'`; the result is kept with its last code point first
unfoldable pub ends_in_dash : List ℕ → Bool
ends_in_dash [] = false
ends_in_dash (c ∷ result) = nat_beq c dash

-- `maxLen > 0 && len(result) == maxLen`
unfoldable pub is_full : ℕ → List ℕ → Bool
is_full max_len result = ltb 0 max_len && nat_beq (length result) max_len

-- the loop of toLowerRFC1123 over the code points of strings.ToLower(input)
unfoldable pub scan : ℕ → List ℕ → List ℕ → List ℕ
unfolding is_alphanumeric ends_in_dash is_full
scan max_len result [] = result
scan max_len result (c ∷ cs) =
    let skipped = scan max_len result cs in
    let with_char = scan max_len (c ∷ result) cs in
    let with_dash = scan max_len (dash ∷ result) cs in
    if is_alphanumeric c
    then (if is_full max_len (c ∷ result) then c ∷ result else with_char)
    else if ends_in_dash result
    then skipped
    else if is_full max_len (dash ∷ result)
    then dash ∷ result
    else with_dash

unfoldable pub map_lower : List ℕ → List ℕ
unfolding to_lower
map_lower [] = []
map_lower (c ∷ cs) = to_lower c ∷ map_lower cs

-- strings.TrimLeft(s, "-")
unfoldable pub drop_dashes : List ℕ → List ℕ
drop_dashes [] = []
drop_dashes (c ∷ cs) = let rest = drop_dashes cs in if nat_beq c dash then rest else c ∷ cs

-- strings.Trim(s, "-") of the reversed result
unfoldable pub trim_dashes : List ℕ → List ℕ
unfolding drop_dashes
trim_dashes result = drop_dashes (reverse (drop_dashes result))

-- A `max_len` of 0 stands for every value that is not positive: all of them mean no limit.
unfoldable pub to_lower_rfc1123 : List ℕ → ℕ → List ℕ
unfolding scan map_lower trim_dashes
to_lower_rfc1123 input max_len = trim_dashes (scan max_len [] (map_lower input))

unfoldable pub prefix : List ℕ → List ℕ
unfolding to_lower_rfc1123
prefix identifier = to_lower_rfc1123 identifier 0 ++ dash ∷ []

unfoldable pub suffix : ℕ → List ℕ
unfolding decimal
suffix index = dash ∷ decimal index

-- `podName` of a workload with this identifier and name. The subtraction stops at 0 where Go's
-- goes below it, and toLowerRFC1123 treats both alike.
unfoldable pub pod_name : List ℕ → List ℕ → ℕ → List ℕ
unfolding prefix suffix utf8_bytes
pod_name identifier name index =
    prefix identifier
    ++ (to_lower_rfc1123 name (63 - utf8_bytes (prefix identifier) - utf8_bytes (suffix index))
        ++ suffix index)
