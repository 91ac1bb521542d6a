-- ===== src/Sql.antt =====
-- The SQL front end: lib/sql_parser and lib/sql_template.
pub mod Keywords
pub mod Lexer
pub mod Template
mod Tests
