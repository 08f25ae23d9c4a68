-- ===== src/Prelude/OrdMap.antt =====
-- Rust's `BTreeMap`: an association list in ascending key order. `Ops` has the operations, `Laws`
-- what `get` reads after each of them, and `Sorted` the order of the keys.
mod Key
mod Ops
mod Laws
mod Sorted
pub use Key.{KeyOrder, nat_keys, Text, keq, keq_iff}
unfoldable pub use Key.{text_keys}
unfoldable pub use Ops.{Map, get, insert, remove, retain, contains_key}
pub use Laws.*
pub use Sorted.*
