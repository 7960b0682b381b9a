-- ===== src/Utils.antt =====
-- src/utils: small helpers and containers.
pub mod LinkedList
pub mod HashTable
pub mod Math
