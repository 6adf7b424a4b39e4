-- ===== src/Wire/Shapes/Answered.antt =====
-- What a guard accepts has the type that it claims: theorems on Wire/Server.antt.
use bili_sync_play.Prelude.{
  Bool, Option, String, [], false, none, refl, some, true, ◌&&◌, ◌||◌, ◌∷◌, ◌≡◌,
}
use bili_sync_play.Wire.{
  all_true, is_room_code, is_token, is_bounded_string, Json, field, is_actor_id, is_finite_number,
  is_optional_positive_integer, is_record, text,
}
use bili_sync_play.Wire.Client.{
  display_name_max_length, is_playback_state, title_max_length, url_max_length,
}
use bili_sync_play.Wire.Server.{
  is_announcement, is_announcement_id, is_announcement_message, is_error_message, is_member_message,
  is_null, is_room_created_message, is_room_joined_message, is_room_member, is_room_state,
  is_room_state_message, is_room_state_payload, is_server_announcement_message, is_server_message,
  is_shared_video, is_sync_pong_message,
}
use bili_sync_play.Wire.Shapes.{
  created_payload_type, joined_payload_type, member_payload_type, error_payload_type,
  pong_payload_type, announcement_payload_type, announcement_type, error_type, has_shape, holds,
  holds_if_any, is_of, member_event, number_type, playback_state_type, room_created_type,
  room_joined_type, room_member_type, room_state_type, server_announcement_type,
  server_message_types, shared_video_type, state_payload_type, string, sync_pong_type,
}
use bili_sync_play.Wire.Shapes.Parts.{
  actor_id-text, both, bounded-text, branch, finite-number, inside, kept, one_of-literal, optional,
  playback_state-shape, room_code-text, skip, text-literal, token-text,
}
use bili_sync_play.Wire.Shapes.Payloads.{
  and-left, and-right, last, flat, nullable-shape, list-shape, optional_time-number,
  optional_version-number, room_member-shape, member-shape,
}

room_created-shape :
    (v : Json) → is_room_created_message (some v) ≡ true → has_shape room_created_type v ≡ true
unfolding is_room_created_message has_shape
room_created-shape v =
    flat "room:created" created_payload_type
      (λ o. all_true (
        is_room_code (field "roomCode" o)
        ∷ is_actor_id (field "memberId" o)
        ∷ is_token (field "joinToken" o)
        ∷ is_token (field "memberToken" o)
        ∷ is_optional_positive_integer (field "serverProtocolVersion" o)
        ∷ []))
      v
      (λ p.
        let f = λ (name : String). field name (some p) in
        both kept (
          both (room_code-text (f "roomCode")) (
            both (actor_id-text (f "memberId")) (
              both (token-text (f "joinToken")) (
                both (token-text (f "memberToken"))
                  (both (optional_version-number (f "serverProtocolVersion")) kept))))))

room_joined-shape :
    (v : Json) → is_room_joined_message (some v) ≡ true → has_shape room_joined_type v ≡ true
unfolding is_room_joined_message has_shape
room_joined-shape v =
    flat "room:joined" joined_payload_type
      (λ o. all_true (
        is_room_code (field "roomCode" o)
        ∷ is_actor_id (field "memberId" o)
        ∷ is_token (field "memberToken" o)
        ∷ is_optional_positive_integer (field "serverProtocolVersion" o)
        ∷ []))
      v
      (λ p.
        let f = λ (name : String). field name (some p) in
        both kept (
          both (room_code-text (f "roomCode")) (
            both (actor_id-text (f "memberId")) (
              both (token-text (f "memberToken"))
                (both (optional_version-number (f "serverProtocolVersion")) kept)))))

member_message-shape :
    (name : String) (v : Json)
    → is_member_message name (some v) ≡ true
    → has_shape (member_event name) v ≡ true
unfolding is_member_message has_shape
member_message-shape name v =
    flat name member_payload_type
      (λ o. all_true (is_room_code (field "roomCode" o) ∷ is_room_member (field "member" o) ∷ [])) v
      (λ p. both kept (
        both (room_code-text (field "roomCode" (some p)))
          (both (member-shape (field "member" (some p))) kept)))

error-shape : (v : Json) → is_error_message (some v) ≡ true → has_shape error_type v ≡ true
unfolding is_error_message has_shape
error-shape v =
    flat "error" error_payload_type
      (λ o. all_true (
        is_bounded_string (field "code" o) 32
        ∷ is_bounded_string (field "message" o) title_max_length
        ∷ []))
      v
      (λ p. both kept (
        both (bounded-text (field "code" (some p)) 32)
          (both (bounded-text (field "message" (some p)) title_max_length) kept)))

sync_pong-shape :
    (v : Json) → is_sync_pong_message (some v) ≡ true → has_shape sync_pong_type v ≡ true
unfolding is_sync_pong_message has_shape
sync_pong-shape v =
    flat "sync:pong" pong_payload_type
      (λ o. all_true (
        is_finite_number (field "clientSendTime" o)
        ∷ is_finite_number (field "serverReceiveTime" o)
        ∷ is_finite_number (field "serverSendTime" o)
        ∷ []))
      v
      (λ p.
        let f = λ (name : String). field name (some p) in
        both kept (
          both (finite-number (f "clientSendTime")) (
            both (finite-number (f "serverReceiveTime"))
              (both (finite-number (f "serverSendTime")) kept))))

announcement_id-text :
    (o : Option Json) → is_announcement_id o ≡ true → holds (has_shape string) o ≡ true
unfolding is_announcement_id has_shape
announcement_id-text (some (text s)) h = refl
announcement_id-text _ h = cc

announcement_message-text :
    (blank : String → Bool) (o : Option Json)
    → is_announcement_message blank o ≡ true
    → holds (has_shape string) o ≡ true
unfolding is_announcement_message has_shape
announcement_message-text blank (some (text s)) h = refl
announcement_message-text blank _ h = cc

announcement-shape :
    (blank : String → Bool) (o : Option Json)
    → is_announcement blank o ≡ true
    → holds (has_shape announcement_type) o ≡ true
unfolding is_announcement has_shape
announcement-shape blank none = λ h. cc
announcement-shape blank (some v) =
    let f = λ (name : String). field name (some v) in
    both kept (
      both (announcement_id-text (f "id")) (
        both (one_of-literal ("info" ∷ "warning" ∷ []) (f "level")) (
          both (announcement_message-text blank (f "message")) (
            both (optional_time-number (f "scheduledAt"))
              (both (finite-number (f "expiresInMs")) (skip _ kept))))))

server_announcement-shape :
    (blank : String → Bool) (v : Json)
    → is_server_announcement_message blank (some v) ≡ true
    → has_shape server_announcement_type v ≡ true
unfolding is_server_announcement_message has_shape
server_announcement-shape blank v =
    flat "server:announcement" announcement_payload_type
      (λ o.
        all_true (
          (is_null (field "announcement" o) || is_announcement blank (field "announcement" o))
          ∷ []))
      v
      (λ p.
        let o = field "announcement" (some p) in
        both kept (
          both
            (nullable-shape (is_announcement blank) announcement_type o
              (announcement-shape blank o))
            kept))

module _ (is_bilibili_ref : String → Bool) where
  shared_video-shape :
      (o : Option Json)
      → is_shared_video is_bilibili_ref o ≡ true
      → holds (has_shape shared_video_type) o ≡ true
  unfolding is_shared_video has_shape
  shared_video-shape none = λ h. cc
  shared_video-shape (some v) =
      let f = λ (name : String). field name (some v) in
      both kept (
        both (bounded-text (f "videoId") title_max_length) (
          skip _ (
            both (bounded-text (f "url") url_max_length) (
              skip _ (
                both (bounded-text (f "title") title_max_length) (
                  skip _ (
                    both
                      (optional is_actor_id string (f "sharedByMemberId")
                        (actor_id-text (f "sharedByMemberId")))
                      (both
                        (optional (λ o. is_bounded_string o display_name_max_length) string
                          (f "sharedByDisplayName")
                          (bounded-text (f "sharedByDisplayName") display_name_max_length))
                        kept))))))))

  state_payload-shape :
      (o : Option Json)
      → is_room_state_payload is_bilibili_ref o ≡ true
      → holds (has_shape state_payload_type) o ≡ true
  unfolding is_room_state_payload is_room_state has_shape
  state_payload-shape none = λ h. cc
  state_payload-shape (some v) = λ h.
      let f = λ (name : String). field name (some v) in
      let tail = and-right (is_record (some v)) _ h in
      let age : (holds_if_any (has_shape number_type) (f "playbackAgeMs") && true) ≡ true =
        both (optional_time-number (f "playbackAgeMs")) kept
          (and-right (is_room_state is_bilibili_ref (some v)) _ tail) in
      both kept
        (both (room_code-text (f "roomCode")) (
          both
            (nullable-shape (is_shared_video is_bilibili_ref) shared_video_type (f "sharedVideo")
              (shared_video-shape (f "sharedVideo")))
            (both
              (nullable-shape is_playback_state playback_state_type (f "playback")
                (playback_state-shape (f "playback")))
              (last (list-shape is_room_member room_member_type (f "members") room_member-shape)
                age))))
        (and-left (is_room_state is_bilibili_ref (some v)) _ tail)

  room_state-shape :
      (v : Json)
      → is_room_state_message is_bilibili_ref (some v) ≡ true
      → has_shape room_state_type v ≡ true
  unfolding is_room_state_message has_shape
  room_state-shape v = both kept (
      both (text-literal "room:state" (field "type" (some v)))
        (both (state_payload-shape (field "payload" (some v))) kept))

  module _ (trim_is_empty : String → Bool) where
    -- Whatever JSON value a client takes for a message of the server has one of the eight types that the
    -- protocol declares, but that the code of an error is any text: each field that must be there is
    -- there, and each field has its type, down to every member of a room's state.
    pub is_server_message_sound :
        (value : Option Json)
        → is_server_message is_bilibili_ref trim_is_empty value ≡ true
        → is_of server_message_types value ≡ true
    unfolding is_server_message
    is_server_message_sound none h = cc
    is_server_message_sound (some v) h =
        branch _ (room_created-shape v)
          (branch _ (room_joined-shape v) (
            branch _ (room_state-shape v) (
              branch _ (member_message-shape "room:member-joined" v) (
                branch _ (member_message-shape "room:member-left" v) (
                  branch _ (error-shape v) (
                    branch _ (sync_pong-shape v)
                      (branch {w = false} _ (server_announcement-shape trim_is_empty v) kept)))))))
          (inside _ h)
