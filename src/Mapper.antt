-- ===== src/Mapper.antt =====
-- operator/mapper: conversions and comparisons that every controller shares (alias.go, dbaas.go and
-- conditions.go). A nil pointer or a nil slice that the code tells from an empty one is `none`.
pub mod Sets
pub mod Compare
pub mod Versions
pub mod Conversions
