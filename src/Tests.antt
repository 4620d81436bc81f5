-- ===== src/Tests.antt =====
-- Runs of the theorems at concrete inputs.
pub mod Samples
pub mod BoxTests
pub mod ParserTests
pub mod TypesTests
pub mod TableTests
pub mod MessageTests
pub mod CallTests
pub mod ConnectionTests
pub mod DateTimeTests
pub mod DoubleTests
pub mod ReplyTests
pub mod RpcTests
pub mod ReachableTests
pub mod ExampleTests
