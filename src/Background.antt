-- ===== src/Background.antt =====
-- extension/src/background: what the background script of the extension decides.
pub mod Share
pub mod Clock
pub mod Members
