-- ===== src/Collections.antt =====
-- The standard collections that the program uses: `HashMap`, `HashSet` and `BTreeMap`.
pub mod HashMap
pub mod HashSet
pub mod BTreeMap
