-- ===== src/Wire/Server.antt =====
-- packages/protocol/src/guards/server-message.ts: which values a client takes for a message of the
-- server. `trim_is_empty` tells whether a text has nothing but white space.
use bili_sync_play.Prelude.{
  Bool, Option, String, [], false, if◌then◌else◌, is_nil, leb, not, some, true, ℕ, ◌&&◌, ◌==◌, ◌||◌,
  ◌∷◌,
}
use bili_sync_play.Wire.{
  all_true, Items, Json, all_codes, array, codes, cons, field, is_actor_id, is_alphanumeric,
  is_bilibili_url, is_bounded_string, is_finite_number, is_non_negative, is_one_of,
  is_optional_positive_integer, is_optional_string, is_positive, is_record, is_room_code, is_string,
  is_text, is_token, is_undefined, is_video_id, nil, null, string_length, text,
}
use bili_sync_play.Wire.Client.{
  display_name_max_length, is_playback_state, title_max_length, url_max_length,
}

unfoldable pub is_room_member : Option Json → Bool
is_room_member value = all_true (
    is_record value
    ∷ is_actor_id (field "id" value)
    ∷ is_bounded_string (field "name" value) display_name_max_length
    ∷ [])

abbrev pub is_null : Option Json → Bool
is_null (some null) = true
is_null _ = false

abbrev pub every : (Option Json → Bool) → Items → Bool
every p nil = true
every p (cons x xs) = p (some x) && every p xs

abbrev pub is_array_of : (Option Json → Bool) → Option Json → Bool
is_array_of p (some (array items)) = every p items
is_array_of p _ = false

unfoldable pub is_room_created_message : Option Json → Bool
is_room_created_message value =
    let payload = field "payload" value in
    all_true (
      is_record value
      ∷ is_text "room:created" (field "type" value)
      ∷ is_record payload
      ∷ is_room_code (field "roomCode" payload)
      ∷ is_actor_id (field "memberId" payload)
      ∷ is_token (field "joinToken" payload)
      ∷ is_token (field "memberToken" payload)
      ∷ is_optional_positive_integer (field "serverProtocolVersion" payload)
      ∷ [])

unfoldable pub is_room_joined_message : Option Json → Bool
is_room_joined_message value =
    let payload = field "payload" value in
    all_true (
      is_record value
      ∷ is_text "room:joined" (field "type" value)
      ∷ is_record payload
      ∷ is_room_code (field "roomCode" payload)
      ∷ is_actor_id (field "memberId" payload)
      ∷ is_token (field "memberToken" payload)
      ∷ is_optional_positive_integer (field "serverProtocolVersion" payload)
      ∷ [])

-- room:member-joined and room:member-left
unfoldable pub is_member_message : String → Option Json → Bool
unfolding is_room_member
is_member_message name value =
    let payload = field "payload" value in
    all_true (
      is_record value
      ∷ is_text name (field "type" value)
      ∷ is_record payload
      ∷ is_room_code (field "roomCode" payload)
      ∷ is_room_member (field "member" payload)
      ∷ [])

unfoldable pub is_error_message : Option Json → Bool
is_error_message value =
    let payload = field "payload" value in
    all_true (
      is_record value
      ∷ is_text "error" (field "type" value)
      ∷ is_record payload
      ∷ is_bounded_string (field "code" payload) 32
      ∷ is_bounded_string (field "message" payload) title_max_length
      ∷ [])

unfoldable pub is_sync_pong_message : Option Json → Bool
is_sync_pong_message value =
    let payload = field "payload" value in
    all_true (
      is_record value
      ∷ is_text "sync:pong" (field "type" value)
      ∷ is_record payload
      ∷ is_finite_number (field "clientSendTime" payload)
      ∷ is_finite_number (field "serverReceiveTime" payload)
      ∷ is_finite_number (field "serverSendTime" payload)
      ∷ [])

-- [A-Za-z0-9_-]
abbrev pub is_announcement_unit : ℕ → Bool
is_announcement_unit c = is_alphanumeric c || c == 95 || c == 45

unfoldable pub is_announcement_id : Option Json → Bool
unfolding codes
is_announcement_id (some (text s)) =
    not (is_nil (codes s)) && leb (string_length s) 64 && all_codes is_announcement_unit (codes s)
is_announcement_id _ = false

unfoldable pub is_announcement_message : (String → Bool) → Option Json → Bool
unfolding codes
is_announcement_message trim_is_empty (some (text s)) =
    not (trim_is_empty s) && leb (string_length s) 500
is_announcement_message trim_is_empty _ = false

abbrev pub is_announcement_level : Option Json → Bool
is_announcement_level value = is_one_of ("info" ∷ "warning" ∷ []) value

unfoldable pub is_announcement : (String → Bool) → Option Json → Bool
unfolding is_announcement_id is_announcement_message
is_announcement trim_is_empty value = all_true (
    is_record value
    ∷ is_announcement_id (field "id" value)
    ∷ is_announcement_level (field "level" value)
    ∷ is_announcement_message trim_is_empty (field "message" value)
    ∷ (is_undefined (field "scheduledAt" value)
        || (is_finite_number (field "scheduledAt" value)
            && is_non_negative (field "scheduledAt" value)))
    ∷ is_finite_number (field "expiresInMs" value)
    ∷ is_positive (field "expiresInMs" value)
    ∷ [])

unfoldable pub is_server_announcement_message : (String → Bool) → Option Json → Bool
unfolding is_announcement
is_server_announcement_message trim_is_empty value =
    let payload = field "payload" value in
    all_true (
      is_record value
      ∷ is_text "server:announcement" (field "type" value)
      ∷ is_record payload
      ∷ (is_null (field "announcement" payload)
          || is_announcement trim_is_empty (field "announcement" payload))
      ∷ [])

module _ (is_bilibili_ref : String → Bool) where
  -- A video of the room: as in the guard of the client's messages, but for the length of the sharer's id.
  unfoldable pub is_shared_video : Option Json → Bool
  is_shared_video value = all_true (
      is_record value
      ∷ is_bounded_string (field "videoId" value) title_max_length
      ∷ is_video_id (field "videoId" value)
      ∷ is_bounded_string (field "url" value) url_max_length
      ∷ is_bilibili_url is_bilibili_ref (field "url" value)
      ∷ is_bounded_string (field "title" value) title_max_length
      ∷ is_optional_string (field "sharedByMemberId" value)
      ∷ (is_undefined (field "sharedByMemberId" value)
          || is_actor_id (field "sharedByMemberId" value))
      ∷ (is_undefined (field "sharedByDisplayName" value)
          || is_bounded_string (field "sharedByDisplayName" value) display_name_max_length)
      ∷ [])

  unfoldable pub is_room_state : Option Json → Bool
  unfolding is_shared_video is_room_member
  is_room_state value = all_true (
      is_record value
      ∷ is_room_code (field "roomCode" value)
      ∷ (is_null (field "sharedVideo" value) || is_shared_video (field "sharedVideo" value))
      ∷ (is_null (field "playback" value) || is_playback_state (field "playback" value))
      ∷ is_array_of is_room_member (field "members" value)
      ∷ [])

  unfoldable pub is_room_state_payload : Option Json → Bool
  unfolding is_room_state
  is_room_state_payload value = all_true (
      is_record value
      ∷ is_room_state value
      ∷ (is_undefined (field "playbackAgeMs" value)
          || (is_finite_number (field "playbackAgeMs" value)
              && is_non_negative (field "playbackAgeMs" value)))
      ∷ [])

  unfoldable pub is_room_state_message : Option Json → Bool
  unfolding is_room_state_payload
  is_room_state_message value = all_true (
      is_record value
      ∷ is_text "room:state" (field "type" value)
      ∷ is_room_state_payload (field "payload" value)
      ∷ [])

  module _ (trim_is_empty : String → Bool) where
    -- The switch on the type.
    unfoldable pub is_server_message : Option Json → Bool
    unfolding is_room_created_message is_room_joined_message is_room_state_message is_member_message
        is_error_message is_sync_pong_message is_server_announcement_message
    is_server_message value =
        let kind = field "type" value in
        if is_record value && is_string kind
        then if is_text "room:created" kind
          then is_room_created_message value
          else if is_text "room:joined" kind
          then is_room_joined_message value
          else if is_text "room:state" kind
          then is_room_state_message value
          else if is_text "room:member-joined" kind
          then is_member_message "room:member-joined" value
          else if is_text "room:member-left" kind
          then is_member_message "room:member-left" value
          else if is_text "error" kind
          then is_error_message value
          else if is_text "sync:pong" kind
          then is_sync_pong_message value
          else if is_text "server:announcement" kind
          then is_server_announcement_message trim_is_empty value
          else false
        else false
