-- ===== src/Tests.antt =====
-- Runs of the model on concrete inputs: the services that they use, and a module for each component.
pub mod Fixtures
pub mod Mapping
pub mod Buckets
pub mod Keys
pub mod Roles
pub mod Deleted
pub mod Credentials
pub mod Databases
pub mod Stores
pub mod BucketLife
pub mod Operators
pub mod Samples
pub mod Versions
pub mod MysqlLife
pub mod Caches
pub mod Searches
pub mod Relational
pub mod Streams
