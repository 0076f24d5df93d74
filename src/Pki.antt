-- ===== src/Pki.antt =====
-- internal/pki: of this package the join token is modelled. The names of certificates stand with their
-- reader, in Http/Auth.
pub mod Files
pub mod Token
pub mod Stored
