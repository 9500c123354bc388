-- ===== src/Lsp.antt =====
-- The language server (apiverity/lsp).
pub mod Protocol
pub mod Serve
