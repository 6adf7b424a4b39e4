-- ===== src/Wire/Shapes.antt =====
-- packages/protocol/src/types/client-message.ts, server-message.ts and domain.ts: the types of the
-- messages as values, and which JSON values have a type.
use bili_sync_play.Prelude.{
  Bool, List, Option, String, [], any, false, if◌then◌else◌, none, some, true, ◌&&◌, ◌∷◌,
}
use bili_sync_play.Prelude.Sets
use bili_sync_play.Wire.{
  Items, Json, array, boolean, cons, field, finite, is_record, nil, null, number, play_states,
  sync_intents, text,
}
pub mod Parts
pub mod Sound
pub mod Payloads
pub mod Answered

mutual
  -- `union` are string literals.
  pub data Shape : Type 0 where
    string boolean_type number_type : Shape
    union : List String → Shape
    nullable : Shape → Shape
    list : Shape → Shape
    interface : Members → Shape

  pub data Members : Type 0 where
    done : Members
    required : String → Shape → Members → Members
    optional : String → Shape → Members → Members

abbrev pub all_items : (Json → Bool) → Items → Bool
all_items p nil = true
all_items p (cons x xs) = p x && all_items p xs

abbrev pub holds : (Json → Bool) → Option Json → Bool
holds p none = false
holds p (some value) = p value

abbrev pub holds_if_any : (Json → Bool) → Option Json → Bool
holds_if_any p none = true
holds_if_any p (some value) = p value

abbrev pub is_literal : List String → Json → Bool
is_literal names (text s) = Sets.contains s names
is_literal names _ = false

abbrev pub is_text_value : Json → Bool
is_text_value (text _) = true
is_text_value _ = false

abbrev pub is_boolean_value : Json → Bool
is_boolean_value (boolean _) = true
is_boolean_value _ = false

abbrev pub is_number_value : Json → Bool
is_number_value (number _) = true
is_number_value _ = false

abbrev pub is_null_or : (Json → Bool) → Json → Bool
is_null_or p null = true
is_null_or p value = p value

abbrev pub is_list_of : (Json → Bool) → Json → Bool
is_list_of p (array items) = all_items p items
is_list_of p _ = false

unfoldable mutual
  pub has_shape : Shape → Json → Bool
  has_shape string value = is_text_value value
  has_shape boolean_type value = is_boolean_value value
  has_shape number_type value = is_number_value value
  has_shape (union names) value = is_literal names value
  has_shape (nullable shape) value = is_null_or (has_shape shape) value
  has_shape (list shape) value = is_list_of (has_shape shape) value
  has_shape (interface members) value = is_record (some value) && has_members members value

  pub has_members : Members → Json → Bool
  has_members done value = true
  has_members (required name shape members) value =
      holds (has_shape shape) (field name (some value)) && has_members members value
  has_members (optional name shape members) value =
      holds_if_any (has_shape shape) (field name (some value)) && has_members members value

abbrev pub shared_video_type : Shape
shared_video_type = interface (
    required "videoId" string (
      required "url" string (
        required "title" string
          (optional "sharedByMemberId" string (optional "sharedByDisplayName" string done)))))

abbrev pub playback_state_type : Shape
playback_state_type = interface (
    required "url" string (
      required "currentTime" number_type (
        required "playState" (union play_states) (
          optional "syncIntent" (union sync_intents) (
            optional "userInitiated" boolean_type (
              optional "naturalEnd" boolean_type (
                required "playbackRate" number_type (
                  required "updatedAt" number_type (
                    required "serverTime" number_type
                      (required "actorId" string (required "seq" number_type done)))))))))))

-- A message of the name with its payload.
abbrev pub message : String → Members → Shape
message name rest = interface (required "type" (union (name ∷ [])) rest)

abbrev pub client_hello_type : Shape
client_hello_type =
    interface (optional "displayName" string (optional "protocolVersion" number_type done))

abbrev pub create_room_type : Shape
create_room_type = message "room:create" (optional "payload" client_hello_type done)

abbrev pub join_payload_type : Shape
join_payload_type = interface (
    required "roomCode" string (
      required "joinToken" string (
        optional "memberToken" string
          (optional "displayName" string (optional "protocolVersion" number_type done)))))

abbrev pub join_room_type : Shape
join_room_type = message "room:join" (required "payload" join_payload_type done)

abbrev pub profile_payload_type : Shape
profile_payload_type =
    interface (required "memberToken" string (required "displayName" string done))

abbrev pub profile_update_type : Shape
profile_update_type = message "profile:update" (required "payload" profile_payload_type done)

abbrev pub leave_payload_type : Shape
leave_payload_type = interface (optional "memberToken" string done)

abbrev pub leave_room_type : Shape
leave_room_type = message "room:leave" (optional "payload" leave_payload_type done)

abbrev pub share_payload_type : Shape
share_payload_type = interface (
    required "memberToken" string
      (required "video" shared_video_type (optional "playback" playback_state_type done)))

abbrev pub share_video_type : Shape
share_video_type = message "video:share" (required "payload" share_payload_type done)

abbrev pub playback_payload_type : Shape
playback_payload_type =
    interface (required "memberToken" string (required "playback" playback_state_type done))

abbrev pub playback_update_type : Shape
playback_update_type = message "playback:update" (required "payload" playback_payload_type done)

abbrev pub request_payload_type : Shape
request_payload_type = interface (required "memberToken" string done)

abbrev pub sync_request_type : Shape
sync_request_type = message "sync:request" (required "payload" request_payload_type done)

abbrev pub ping_payload_type : Shape
ping_payload_type = interface (required "clientSendTime" number_type done)

abbrev pub sync_ping_type : Shape
sync_ping_type = message "sync:ping" (required "payload" ping_payload_type done)

-- ClientMessage
abbrev pub client_message_types : List Shape
client_message_types =
    create_room_type ∷ join_room_type ∷ profile_update_type ∷ leave_room_type ∷ share_video_type
    ∷ playback_update_type ∷ sync_request_type ∷ sync_ping_type ∷ []

abbrev pub room_member_type : Shape
room_member_type = interface (required "id" string (required "name" string done))

abbrev pub member_payload_type : Shape
member_payload_type =
    interface (required "roomCode" string (required "member" room_member_type done))

abbrev pub member_event : String → Shape
member_event name = message name (required "payload" member_payload_type done)

abbrev pub created_payload_type : Shape
created_payload_type = interface (
    required "roomCode" string (
      required "memberId" string (
        required "joinToken" string
          (required "memberToken" string (optional "serverProtocolVersion" number_type done)))))

abbrev pub room_created_type : Shape
room_created_type = message "room:created" (required "payload" created_payload_type done)

abbrev pub joined_payload_type : Shape
joined_payload_type = interface (
    required "roomCode" string (
      required "memberId" string
        (required "memberToken" string (optional "serverProtocolVersion" number_type done))))

abbrev pub room_joined_type : Shape
room_joined_type = message "room:joined" (required "payload" joined_payload_type done)

abbrev pub state_payload_type : Shape
state_payload_type = interface (
    required "roomCode" string (
      required "sharedVideo" (nullable shared_video_type) (
        required "playback" (nullable playback_state_type) (
          required "members" (list room_member_type) (optional "playbackAgeMs" number_type done)))))

abbrev pub room_state_type : Shape
room_state_type = message "room:state" (required "payload" state_payload_type done)

abbrev pub pong_payload_type : Shape
pong_payload_type = interface (
    required "clientSendTime" number_type
      (required "serverReceiveTime" number_type (required "serverSendTime" number_type done)))

abbrev pub sync_pong_type : Shape
sync_pong_type = message "sync:pong" (required "payload" pong_payload_type done)

-- The guard takes any short text for the code of an error, of which the type lists eleven.
abbrev pub error_payload_type : Shape
error_payload_type = interface (required "code" string (required "message" string done))

abbrev pub error_type : Shape
error_type = message "error" (required "payload" error_payload_type done)

abbrev pub announcement_type : Shape
announcement_type = interface (
    required "id" string (
      required "level" (union ("info" ∷ "warning" ∷ [])) (
        required "message" string
          (optional "scheduledAt" number_type (required "expiresInMs" number_type done)))))

abbrev pub announcement_payload_type : Shape
announcement_payload_type = interface (required "announcement" (nullable announcement_type) done)

abbrev pub server_announcement_type : Shape
server_announcement_type =
    message "server:announcement" (required "payload" announcement_payload_type done)

abbrev pub server_message_types : List Shape
server_message_types =
    room_created_type
    ∷ room_joined_type
    ∷ room_state_type
    ∷ member_event "room:member-joined"
    ∷ member_event "room:member-left"
    ∷ error_type
    ∷ sync_pong_type
    ∷ server_announcement_type
    ∷ []

-- The value is of one of the types.
abbrev pub is_of : List Shape → Option Json → Bool
is_of types value = any (λ shape. holds (has_shape shape) value) types
