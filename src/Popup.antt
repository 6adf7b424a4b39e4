-- ===== src/Popup.antt =====
-- The extension's popup: the invites that users pass on. extension/src/popup/helpers.ts and
-- extension/src/popup/popup-render.ts.
pub mod Invite
