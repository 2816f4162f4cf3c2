-- ===== src/Script.antt =====
-- The crate ec/test-script: a line-oriented test script is parsed into statements, and each
-- statement is run against a data source.
pub mod Platform
pub mod Syntax
pub mod Literal
pub mod Call
pub mod Parser
pub mod Value
pub mod Source
pub mod Verbs
pub mod Exec
pub mod Tests
