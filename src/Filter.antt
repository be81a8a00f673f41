-- ===== src/Filter.antt =====
-- internal/filter: the filter language.
pub mod Ast
pub mod Reader
pub mod Glob
pub mod Scalar
pub mod Token
pub mod Tokenize
pub mod Term
pub mod Parser
pub mod Eval
pub mod Plan
