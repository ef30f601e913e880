-- ===== src/Auth.antt =====
-- Tokens and who may do what: app/core/security/jwt.py, principal.py and deps.py, and the routes of
-- app/api/v1/auth.py that hand tokens out.
pub mod Jwt
pub mod Rotation
pub mod Sessions
pub mod Principal
mod Codec
mod Tests
