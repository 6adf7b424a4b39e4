-- ===== src/Wire/Shapes/Sound.antt =====
-- What a guard accepts has the type that it claims: theorems on Wire/Client.antt.
use bili_sync_play.Prelude.{Bool, Option, String, false, none, some, true, ◌≡◌}
use bili_sync_play.Wire.{Json, field}
use bili_sync_play.Wire.Client.{
  display_name_max_length, is_client_hello_payload, is_client_message, is_create_room_message,
  is_join_room_message, is_join_room_payload, is_leave_room_message, is_leave_room_payload,
  is_playback_state, is_playback_update_message, is_playback_update_payload,
  is_profile_update_message, is_profile_update_payload, is_share_video_message,
  is_share_video_payload, is_shared_video, is_sync_ping_message, is_sync_ping_payload,
  is_sync_request_payload, is_sync_request_message, title_max_length, url_max_length,
}
use bili_sync_play.Wire.Shapes.{
  client_hello_type, join_payload_type, leave_payload_type, profile_payload_type,
  playback_payload_type, share_payload_type, request_payload_type, ping_payload_type,
  client_message_types, create_room_type, has_shape, holds, is_of, join_room_type, leave_room_type,
  playback_state_type, playback_update_type, profile_update_type, share_video_type,
  shared_video_type, sync_ping_type, sync_request_type,
}
use bili_sync_play.Wire.Shapes.Parts.{
  token-text, room_code-text, bounded-text, finite-number, text-literal, optional,
  optional_integer-number, both, skip, kept, playback_state-shape, optional_bounded-text,
  optional_token-text, branch, inside,
}

create_room-shape :
    (o : Option Json)
    → is_create_room_message o ≡ true
    → holds (has_shape create_room_type) o ≡ true
unfolding is_create_room_message is_client_hello_payload has_shape
create_room-shape none = λ h. cc
create_room-shape (some v) = both kept (
    both (text-literal "room:create" (field "type" (some v))) (
      both
        (optional is_client_hello_payload client_hello_type (field "payload" (some v))
          (payload (field "payload" (some v))))
        kept))
  where
    payload :
        (o : Option Json)
        → is_client_hello_payload o ≡ true
        → holds (has_shape client_hello_type) o ≡ true
    payload none = λ h. cc
    payload (some p) = both kept (
        both (optional_bounded-text (field "displayName" (some p)) display_name_max_length)
          (both (optional_integer-number (field "protocolVersion" (some p))) kept))

join_room-shape :
    (o : Option Json) → is_join_room_message o ≡ true → holds (has_shape join_room_type) o ≡ true
unfolding is_join_room_message is_join_room_payload has_shape
join_room-shape none = λ h. cc
join_room-shape (some v) = both kept (
    both (text-literal "room:join" (field "type" (some v)))
      (both (payload (field "payload" (some v))) kept))
  where
    payload :
        (o : Option Json)
        → is_join_room_payload o ≡ true
        → holds (has_shape join_payload_type) o ≡ true
    payload none = λ h. cc
    payload (some p) = both kept (
        both (room_code-text (field "roomCode" (some p))) (
          both (token-text (field "joinToken" (some p))) (
            both (optional_token-text (field "memberToken" (some p))) (
              both (optional_bounded-text (field "displayName" (some p)) display_name_max_length)
                (both (optional_integer-number (field "protocolVersion" (some p))) kept)))))

profile_update-shape :
    (o : Option Json)
    → is_profile_update_message o ≡ true
    → holds (has_shape profile_update_type) o ≡ true
unfolding is_profile_update_message is_profile_update_payload has_shape
profile_update-shape none = λ h. cc
profile_update-shape (some v) = both kept (
    both (text-literal "profile:update" (field "type" (some v)))
      (both (payload (field "payload" (some v))) kept))
  where
    payload :
        (o : Option Json)
        → is_profile_update_payload o ≡ true
        → holds (has_shape profile_payload_type) o ≡ true
    payload none = λ h. cc
    payload (some p) = both kept (
        both (token-text (field "memberToken" (some p)))
          (both (bounded-text (field "displayName" (some p)) display_name_max_length) kept))

leave_room-shape :
    (o : Option Json) → is_leave_room_message o ≡ true → holds (has_shape leave_room_type) o ≡ true
unfolding is_leave_room_message is_leave_room_payload has_shape
leave_room-shape none = λ h. cc
leave_room-shape (some v) = both kept (
    both (text-literal "room:leave" (field "type" (some v))) (
      both
        (optional is_leave_room_payload leave_payload_type (field "payload" (some v))
          (payload (field "payload" (some v))))
        kept))
  where
    payload :
        (o : Option Json)
        → is_leave_room_payload o ≡ true
        → holds (has_shape leave_payload_type) o ≡ true
    payload none = λ h. cc
    payload (some p) = both kept (both (optional_token-text (field "memberToken" (some p))) kept)

playback_update-shape :
    (o : Option Json)
    → is_playback_update_message o ≡ true
    → holds (has_shape playback_update_type) o ≡ true
unfolding is_playback_update_message is_playback_update_payload has_shape
playback_update-shape none = λ h. cc
playback_update-shape (some v) = both kept (
    both (text-literal "playback:update" (field "type" (some v)))
      (both (payload (field "payload" (some v))) kept))
  where
    payload :
        (o : Option Json)
        → is_playback_update_payload o ≡ true
        → holds (has_shape playback_payload_type) o ≡ true
    payload none = λ h. cc
    payload (some p) = both kept (
        both (token-text (field "memberToken" (some p)))
          (both (playback_state-shape (field "playback" (some p))) kept))

sync_request-shape :
    (o : Option Json)
    → is_sync_request_message o ≡ true
    → holds (has_shape sync_request_type) o ≡ true
unfolding is_sync_request_message has_shape
sync_request-shape none = λ h. cc
sync_request-shape (some v) = both kept (
    both (text-literal "sync:request" (field "type" (some v)))
      (both (payload (field "payload" (some v))) kept))
  where
    payload :
        (o : Option Json)
        → is_sync_request_payload o ≡ true
        → holds (has_shape request_payload_type) o ≡ true
    payload none = λ h. cc
    payload (some p) = both kept (both (token-text (field "memberToken" (some p))) kept)

sync_ping-shape :
    (o : Option Json) → is_sync_ping_message o ≡ true → holds (has_shape sync_ping_type) o ≡ true
unfolding is_sync_ping_message has_shape
sync_ping-shape none = λ h. cc
sync_ping-shape (some v) = both kept (
    both (text-literal "sync:ping" (field "type" (some v)))
      (both (payload (field "payload" (some v))) kept))
  where
    payload :
        (o : Option Json)
        → is_sync_ping_payload o ≡ true
        → holds (has_shape ping_payload_type) o ≡ true
    payload none = λ h. cc
    payload (some p) = both kept (both (finite-number (field "clientSendTime" (some p))) kept)

module _ (is_bilibili_ref : String → Bool) where
  shared_video-shape :
      (o : Option Json)
      → is_shared_video is_bilibili_ref o ≡ true
      → holds (has_shape shared_video_type) o ≡ true
  unfolding is_shared_video has_shape
  shared_video-shape none = λ h. cc
  shared_video-shape (some v) =
      let f = λ (name : String). field name (some v) in
      both kept (
        both (bounded-text (f "videoId") title_max_length) (
          skip _ (
            both (bounded-text (f "url") url_max_length) (
              skip _ (
                both (bounded-text (f "title") title_max_length) (
                  both (optional_bounded-text (f "sharedByMemberId") display_name_max_length) (
                    skip _ (
                      both (optional_bounded-text (f "sharedByDisplayName") display_name_max_length)
                        kept))))))))

  share_video-shape :
      (o : Option Json)
      → is_share_video_message is_bilibili_ref o ≡ true
      → holds (has_shape share_video_type) o ≡ true
  unfolding is_share_video_message is_share_video_payload has_shape
  share_video-shape none = λ h. cc
  share_video-shape (some v) = both kept (
      both (text-literal "video:share" (field "type" (some v)))
        (both (payload (field "payload" (some v))) kept))
    where
      payload :
          (o : Option Json)
          → is_share_video_payload is_bilibili_ref o ≡ true
          → holds (has_shape share_payload_type) o ≡ true
      payload none = λ h. cc
      payload (some p) = both kept (
          both (token-text (field "memberToken" (some p))) (
            both (shared_video-shape (field "video" (some p))) (
              both
                (optional is_playback_state playback_state_type (field "playback" (some p))
                  (playback_state-shape (field "playback" (some p))))
                kept)))

  -- Whatever JSON value the server takes for a message of a client has one of the eight types that the
  -- protocol declares: each field that must be there is there, and each field has its type, however
  -- deep it lies.
  pub is_client_message_sound :
      (value : Option Json)
      → is_client_message is_bilibili_ref value ≡ true
      → is_of client_message_types value ≡ true
  unfolding is_client_message
  is_client_message_sound o h =
      branch _ (create_room-shape o)
        (branch _ (join_room-shape o) (
          branch _ (profile_update-shape o) (
            branch _ (leave_room-shape o) (
              branch _ (share_video-shape o) (
                branch _ (playback_update-shape o) (
                  branch _ (sync_request-shape o)
                    (branch {w = false} _ (sync_ping-shape o) kept)))))))
        (inside _ h)
