-- ===== src/Prelude/Texts.antt =====
-- Text: the functions of Go's strings package that the program uses.
mod Codes
mod Split
mod Trim
unfoldable pub use Codes.*
unfoldable pub use Split.*
unfoldable pub use Trim.*
pub use Prim.Native.String.{◌++◌}
pub use text.Mathlib.TextLemmas.{append-nil, nil-append, append_assoc}
