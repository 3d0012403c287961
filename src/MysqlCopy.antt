-- ===== src/MysqlCopy.antt =====
-- Package internal/mysqlcopy: the bounded logical MySQL copy.
pub mod Plan
pub mod Catalog
pub mod Failure
pub mod Quote
pub mod Schema
pub mod Stream
pub mod Reader
pub mod Executor
