-- ===== src/Store.antt =====
-- internal/store: the JSON stores of environments, bootstrap sessions, project configurations,
-- projects, products and settings. A Go map is a table, the file behind it is a disk of any type.
pub mod Table
pub mod Environment
pub mod Claim
pub mod Session
pub mod Config
pub mod Catalog
mod Tests
