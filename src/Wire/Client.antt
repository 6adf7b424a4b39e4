-- ===== src/Wire/Client.antt =====
-- packages/protocol/src/guards/client-message.ts: which values the server takes for a message.
use bili_sync_play.Prelude.{Bool, Option, String, [], false, if◌then◌else◌, ℕ, ◌&&◌, ◌||◌, ◌∷◌}
use bili_sync_play.Wire.{
  all_true, Json, field, is_actor_id, is_bilibili_url, is_boolean, is_bounded_string,
  is_finite_number, is_optional_bounded_string, is_optional_non_negative_integer,
  is_playback_play_state, is_playback_sync_intent, is_record, is_room_code, is_string, is_text,
  is_token, is_undefined, is_video_id,
}

abbrev pub display_name_max_length : ℕ
display_name_max_length = 32

abbrev pub title_max_length : ℕ
title_max_length = 128

abbrev pub url_max_length : ℕ
url_max_length = 512

unfoldable pub is_client_hello_payload : Option Json → Bool
is_client_hello_payload value = all_true (
    is_record value
    ∷ is_optional_bounded_string (field "displayName" value) display_name_max_length
    ∷ is_optional_non_negative_integer (field "protocolVersion" value)
    ∷ [])

-- The same test stands in both guards.
unfoldable pub is_playback_state : Option Json → Bool
is_playback_state value = all_true (
    is_record value
    ∷ is_bounded_string (field "url" value) url_max_length
    ∷ is_finite_number (field "currentTime" value)
    ∷ is_playback_play_state (field "playState" value)
    ∷ (is_undefined (field "syncIntent" value)
        || is_playback_sync_intent (field "syncIntent" value))
    ∷ (is_undefined (field "userInitiated" value) || is_boolean (field "userInitiated" value))
    ∷ (is_undefined (field "naturalEnd" value) || is_boolean (field "naturalEnd" value))
    ∷ is_finite_number (field "playbackRate" value)
    ∷ is_finite_number (field "updatedAt" value)
    ∷ is_finite_number (field "serverTime" value)
    ∷ is_actor_id (field "actorId" value)
    ∷ is_finite_number (field "seq" value)
    ∷ [])

unfoldable pub is_create_room_message : Option Json → Bool
unfolding is_client_hello_payload
is_create_room_message value = all_true (
    is_record value
    ∷ is_text "room:create" (field "type" value)
    ∷ (is_undefined (field "payload" value) || is_client_hello_payload (field "payload" value))
    ∷ [])

unfoldable pub is_join_room_payload : Option Json → Bool
is_join_room_payload value = all_true (
    is_record value
    ∷ is_room_code (field "roomCode" value)
    ∷ is_token (field "joinToken" value)
    ∷ (is_undefined (field "memberToken" value) || is_token (field "memberToken" value))
    ∷ is_optional_bounded_string (field "displayName" value) display_name_max_length
    ∷ is_optional_non_negative_integer (field "protocolVersion" value)
    ∷ [])

unfoldable pub is_join_room_message : Option Json → Bool
unfolding is_join_room_payload
is_join_room_message value = all_true (
    is_record value
    ∷ is_text "room:join" (field "type" value)
    ∷ is_join_room_payload (field "payload" value)
    ∷ [])

unfoldable pub is_profile_update_payload : Option Json → Bool
is_profile_update_payload value = all_true (
    is_record value
    ∷ is_token (field "memberToken" value)
    ∷ is_bounded_string (field "displayName" value) display_name_max_length
    ∷ [])

unfoldable pub is_profile_update_message : Option Json → Bool
unfolding is_profile_update_payload
is_profile_update_message value = all_true (
    is_record value
    ∷ is_text "profile:update" (field "type" value)
    ∷ is_profile_update_payload (field "payload" value)
    ∷ [])

unfoldable pub is_leave_room_payload : Option Json → Bool
is_leave_room_payload value = all_true (
    is_record value
    ∷ (is_undefined (field "memberToken" value) || is_token (field "memberToken" value))
    ∷ [])

unfoldable pub is_leave_room_message : Option Json → Bool
unfolding is_leave_room_payload
is_leave_room_message value = all_true (
    is_record value
    ∷ is_text "room:leave" (field "type" value)
    ∷ (is_undefined (field "payload" value) || is_leave_room_payload (field "payload" value))
    ∷ [])

unfoldable pub is_playback_update_payload : Option Json → Bool
unfolding is_playback_state
is_playback_update_payload value = all_true (
    is_record value
    ∷ is_token (field "memberToken" value)
    ∷ is_playback_state (field "playback" value)
    ∷ [])

unfoldable pub is_playback_update_message : Option Json → Bool
unfolding is_playback_update_payload
is_playback_update_message value = all_true (
    is_record value
    ∷ is_text "playback:update" (field "type" value)
    ∷ is_playback_update_payload (field "payload" value)
    ∷ [])

unfoldable pub is_sync_request_payload : Option Json → Bool
is_sync_request_payload value =
    all_true (is_record value ∷ is_token (field "memberToken" value) ∷ [])

unfoldable pub is_sync_request_message : Option Json → Bool
unfolding is_sync_request_payload
is_sync_request_message value = all_true (
    is_record value
    ∷ is_text "sync:request" (field "type" value)
    ∷ is_sync_request_payload (field "payload" value)
    ∷ [])

unfoldable pub is_sync_ping_payload : Option Json → Bool
is_sync_ping_payload value =
    all_true (is_record value ∷ is_finite_number (field "clientSendTime" value) ∷ [])

unfoldable pub is_sync_ping_message : Option Json → Bool
unfolding is_sync_ping_payload
is_sync_ping_message value = all_true (
    is_record value
    ∷ is_text "sync:ping" (field "type" value)
    ∷ is_sync_ping_payload (field "payload" value)
    ∷ [])

module _ (is_bilibili_ref : String → Bool) where
  unfoldable pub is_shared_video : Option Json → Bool
  is_shared_video value = all_true (
      is_record value
      ∷ is_bounded_string (field "videoId" value) title_max_length
      ∷ is_video_id (field "videoId" value)
      ∷ is_bounded_string (field "url" value) url_max_length
      ∷ is_bilibili_url is_bilibili_ref (field "url" value)
      ∷ is_bounded_string (field "title" value) title_max_length
      ∷ is_optional_bounded_string (field "sharedByMemberId" value) display_name_max_length
      ∷ (is_undefined (field "sharedByMemberId" value)
          || is_actor_id (field "sharedByMemberId" value))
      ∷ is_optional_bounded_string (field "sharedByDisplayName" value) display_name_max_length
      ∷ [])

  unfoldable pub is_share_video_payload : Option Json → Bool
  unfolding is_shared_video is_playback_state
  is_share_video_payload value = all_true (
      is_record value
      ∷ is_token (field "memberToken" value)
      ∷ is_shared_video (field "video" value)
      ∷ (is_undefined (field "playback" value) || is_playback_state (field "playback" value))
      ∷ [])

  unfoldable pub is_share_video_message : Option Json → Bool
  unfolding is_share_video_payload
  is_share_video_message value = all_true (
      is_record value
      ∷ is_text "video:share" (field "type" value)
      ∷ is_share_video_payload (field "payload" value)
      ∷ [])

  -- The switch on the type.
  unfoldable pub is_client_message : Option Json → Bool
  unfolding is_create_room_message is_join_room_message is_profile_update_message
      is_leave_room_message is_share_video_message is_playback_update_message
      is_sync_request_message is_sync_ping_message
  is_client_message value =
      if is_record value && is_string (field "type" value)
      then if is_text "room:create" (field "type" value)
        then is_create_room_message value
        else if is_text "room:join" (field "type" value)
        then is_join_room_message value
        else if is_text "profile:update" (field "type" value)
        then is_profile_update_message value
        else if is_text "room:leave" (field "type" value)
        then is_leave_room_message value
        else if is_text "video:share" (field "type" value)
        then is_share_video_message value
        else if is_text "playback:update" (field "type" value)
        then is_playback_update_message value
        else if is_text "sync:request" (field "type" value)
        then is_sync_request_message value
        else if is_text "sync:ping" (field "type" value)
        then is_sync_ping_message value
        else false
      else false
