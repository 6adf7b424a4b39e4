-- ===== src/Lib.antt =====
-- Bili-SyncPlay: members of a room watch the same video in step. Clients (extension/) send what their
-- player does to a server (server/), which decides what the room's playback is and sends the state of
-- the room to everybody; packages/protocol/ has the values that they exchange.
--
-- The parts, and the files that model them (paths of the repository from its root):
-- - Protocol: the values of packages/protocol/src/types/domain.ts and common.ts.
-- - Authority: server/src/playback-authority.ts, decidePlaybackAcceptance. Authority/Window: the map of
--   authority windows that server/src/room-service.ts keeps (getPlaybackAuthority,
--   derivePlaybackAuthorityKind, sweepExpiredPlaybackAuthorities, recordPlaybackAuthority).
-- - RateLimit: server/src/rate-limit.ts.
-- - Owner: server/src/shared-video-owner.ts. Session: SessionBase of server/src/types.ts.
-- - RoomStore: the rooms of server/src/room-store.ts as the in-memory store keeps them, with its guarded
--   writes and the expiry sweep; RoomStore/View: roomStateFromSessions and withResolvedSharedOwner.
-- - Runtime/Rooms: server/src/runtime-store-state.ts. Runtime/Store and Runtime/Slots: the in-memory store
--   of server/src/runtime-store.ts, with members and tokens, retention, blocked tokens, generations,
--   residue and teardown, message slots and room locks.
--   Runtime/Sessions: the sessions of that store, and its index of the sessions of each room.
-- - Service: server/src/room-service.ts over these. Resolve (resolveRoom, collectExpiredRoom,
--   collectRuntimeStateForDeletedRooms, withVersionRetry), Access (requireJoinedRoomSession,
--   requireMemberToken), Playback (updatePlaybackForSession), Share (shareVideoForSession), Join (the checks
--   and the write of a join), Admission (the part of joinRoomForSession under the room's lock), Lock (the
--   lock, and joinRoomForSession as a whole), Leave (leaveCurrentRoom), Create (createRoomForSession),
--   Profile (updateProfileForSession, the reads of a room's state, deleteExpiredRooms).
-- - Messages: server/src/message-handler.ts, createMessageHandler, over an interface of the service and of
--   the hooks, which Messages/App fills as server/src/app.ts does. Leave (leaveRoom and the hooks), Enter
--   (what creating and joining share), Handle (handleClientMessage). Protocol/Messages: the messages.
-- - Wire: packages/protocol/src/guards/, which tell what JSON value is a message: primitives.ts here,
--   Wire/Client and Wire/Server the two directions. Wire/Shapes: the types of packages/protocol/src/types/
--   as values, and which JSON value has a type.
-- - Sockets: server/src/ws-heartbeat.ts (Heartbeat) and server/src/security.ts (Security).
-- - Queues: server/src/concurrency-limiter.ts (Limiter), diagnosis-throttle.ts (Throttle), and of
--   durable-write-queue.ts and retry-pacer.ts the retries of one write (Durable).
-- - Popup/Invite: invites of extension/src/popup/helpers.ts and popup-render.ts.
-- - Content: the decisions of the page script. Guards and Suppression: extension/src/content/
--   sync-guards.ts; Reconcile: playback-reconcile.ts; Apply: playback-apply.ts, with the versions that
--   applyRoomState of room-state-apply-controller.ts keeps per actor; Override: pending-local-override.ts.
-- - Background/Share: the pending share of the background script, extension/src/background/room-state.ts
--   with its uses in share-controller.ts and room-session-controller.ts. Background/Members: the changes of
--   a room's members that the latter file queues until the room's first state has come.
--   Background/Clock: the anchors of clock-controller.ts and clock-sync.ts beside it.
-- - Tests: the theorems at concrete inputs. Prelude: shared helpers; Prelude/Dict is a JavaScript Map with text
--   keys, as an association list in insertion order.
--
-- How the code is modelled:
-- - Numbers are natural numbers: times and positions in milliseconds, rates and tokens in thousandths. The
--   decimal constants of the source are scaled along (0.01 is 10, 0.9 s is 900). A difference that is
--   compared to a bound is written as a comparison of sums, as differences are signed in the source.
-- - null and undefined are `none`; a test for truth of a text that may be null is `truthy`, for which the
--   empty text is false too.
-- - A handler is a function of the service's state (rooms, live state, authority windows) that returns the
--   next state and its answer; an error that is thrown is the answer `err`. `Env` holds the readings of
--   the clock, by number, and for the waits at which `others` stands what other requests do to the service
--   meanwhile; `alone` is an Env in which they do nothing. A read of a store takes effect when its answer
--   is used: between the answer of getRoom in resolveRoom and what follows it, and between a declined
--   delete and the read after it, nobody acts. Where a theorem is about any Env, it holds for every
--   interleaving at the waits that are modelled.
-- - A session is a shared object in the source and a value with an id here: a live room binds a member to
--   the session's id, and a handler returns the session as it leaves it.
-- - The loops for a new code, for version conflicts and for a rollback have the rounds of the source. The
--   wait for the join lock runs on fuel: 201 rounds are enough, as its deadline is 5000 ms away and each
--   round sleeps 25 ms. Every other recursion is on a list or a value.
-- - A JSON number is a sign and an absolute value in thousandths, or too large to be finite; a text has its
--   length in UTF-16 code units.
-- - The message handler is given the room service and the hooks as functions; what it sends and publishes
--   is a list of outputs, in order.
-- - Parameters are: `normalize`, the function normalizeBilibiliUrl of packages/protocol/src/video-ref.ts, and
--   the test parseBilibiliVideoRef of the same file, which rest on the platform's URL parser; the test for a
--   stable video identity of extension/src/content/video-identity.ts, which rests on regular expressions;
--   the address tests and text functions of the platform; random tokens; the configuration.
--
-- Not modelled: log lines and metrics; the Redis stores and buses, and with them the timeouts and
-- confirmations of the service that only a remote store can meet; reading frames off sockets, the HTTP side
-- and the administration; the rest of the extension. The manifest lists these parts.
pub mod Prelude
pub mod Protocol
pub mod Wire
pub mod Authority
pub mod RateLimit
pub mod Owner
pub mod Session
pub mod RoomStore
pub mod Runtime
pub mod Popup
pub mod Queues
pub mod Sockets
pub mod Service
pub mod Messages
pub mod Background
pub mod Content
mod Tests
