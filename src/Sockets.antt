-- ===== src/Sockets.antt =====
-- What stands around a connection on the server: the heartbeat that finds dead sockets
-- (server/src/ws-heartbeat.ts), and the policy that admits new ones (server/src/security.ts).
pub mod Heartbeat
pub mod Security
