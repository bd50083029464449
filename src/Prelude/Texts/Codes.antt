-- ===== src/Prelude/Texts/Codes.antt =====
-- The code points of a text, and the text of code points that a pod name may hold.
use Prim.Native.Nat.{ℕ, ◌+◌}
use Prim.Native.Char.{Char, code, nul}
use Prim.Native.String.{String, [], ◌∷◌}
use mathlib.Core.List.{List}
use supernetes.Prelude.Tests.{nat_beq, ltb, if◌then◌else◌}

abbrev pub codes : String → List ℕ
codes [] = List.[]
codes (c ∷ s) = List.◌∷◌ (code c) (codes s)

-- the character of a code point in a table, NUL if it is not there
char_in : String → ℕ → Char
char_in [] n = nul
char_in (c ∷ s) n = let rest = char_in s n in if nat_beq (code c) n then c else rest

-- the characters of pod names: a dash, digits and the lower-case letters of Latin-1
abbrev name_table : String
name_table = "-0123456789abcdefghijklmnopqrstuvwxyzªµºßàáâãäåæçèéêëìíîïðñòóôõöøùúûüýþÿ"

unfoldable pub text_of : List ℕ → String
unfolding char_in
text_of List.[] = []
text_of (List.◌∷◌ n ns) = char_in name_table n ∷ text_of ns

-- len of a Go string: the bytes of its UTF-8 encoding
unfoldable pub utf8_bytes : List ℕ → ℕ
utf8_bytes List.[] = 0
utf8_bytes (List.◌∷◌ n ns) =
    (if ltb n 128 then 1 else if ltb n 2048 then 2 else if ltb n 65536 then 3 else 4)
    + utf8_bytes ns
