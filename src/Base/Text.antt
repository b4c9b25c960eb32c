-- ===== src/Base/Text.antt =====
-- Texts: the functions of Go's strings package that the program calls, and their laws.
mod Defs
mod Split
pub use Split.*
unfoldable pub use Defs.{split, contains}
pub use Defs.{
  String, ◌++◌, str_eq, eq_iff, eq_refl, nil-append, cons-append, append_assoc, append-nil,
}
