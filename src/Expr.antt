-- ===== src/Expr.antt =====
-- The condition language of the rules: platform-services/janitor-bot/src/rules/expr.rs.
pub mod Syntax
pub mod Lex
pub mod Parse
pub mod Eval
mod Tests
