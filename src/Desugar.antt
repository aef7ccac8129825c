-- ===== src/Desugar.antt =====
-- internal/desugar/desugar.go: the rewriting of the operators `=~` and `!~` into calls of
-- `sem_match`. A query is a list of bytes.
pub mod Loop
pub mod Operand
pub mod Rewrite
pub mod Scan
