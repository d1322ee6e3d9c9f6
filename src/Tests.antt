-- ===== src/Tests.antt =====
-- Concrete runs of the modelled functions, and the theorems at concrete inputs.
mod EscapeTests
mod CodeTests
mod LexerTests
mod ArithTests
mod OptimizerTests
mod SerialTests
mod CompilerTests
mod ScopesTests
mod FoldedTests
