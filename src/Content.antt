-- ===== src/Content.antt =====
-- extension/src/content: what the page script decides about the video it stands beside.
pub mod Guards
pub mod Suppression
pub mod Reconcile
pub mod Apply
pub mod Override
