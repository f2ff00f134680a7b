-- ===== src/Auth.antt =====
-- internal/auth: the tokens of POST /auth/token.
pub mod Token
mod Tests
