-- ===== src/Tests/Texts.antt =====
-- Invites and the messages on the wire, at concrete inputs.
use bili_sync_play.Prelude.{[], arith, false, refl, some, true, ◌==◌, ◌∷◌, ◌≡◌}
use bili_sync_play.Prelude.Tests.{text_discrete}
use bili_sync_play.Popup.Invite.{
  Platform, Text, format_invite_draft, matches_room_code, parse_invite_value,
}
use bili_sync_play.Popup.Invite.Laws.{parse_invite_value-format_invite_draft}
use bili_sync_play.Wire.{Json, end, entry, find_field, finite, number, object, text}
use bili_sync_play.Wire.Client.{is_client_message}
use bili_sync_play.Wire.Server.{is_server_message}
use bili_sync_play.Wire.Shapes.Answered.{is_server_message_sound}
use bili_sync_play.Wire.Shapes.{server_message_types, client_message_types, is_of}
use bili_sync_play.Wire.Shapes.Sound.{is_client_message_sound}

-- Only the code unit 32 is a space, and every text is upper case.
abbrev platform : Platform
platform = record { is_space = λ c. c == 32; to_upper_case = λ s. s }

-- "ABC123"
abbrev code : Text
code = 65 ∷ 66 ∷ 67 ∷ 49 ∷ 50 ∷ 51 ∷ []

-- sixteen times "t"
abbrev token : Text
token =
    116 ∷ 116 ∷ 116 ∷ 116 ∷ 116 ∷ 116 ∷ 116 ∷ 116 ∷ 116 ∷ 116 ∷ 116 ∷ 116 ∷ 116 ∷ 116 ∷ 116 ∷ 116
    ∷ []

parse_invite_value-format_invite_draft_example :
    parse_invite_value platform (format_invite_draft (some code) (some token))
    ≡ some (record { room_code = code; join_token = token })
unfolding matches_room_code
parse_invite_value-format_invite_draft_example =
    parse_invite_value-format_invite_draft platform code token (λ c h. ground (arith, h)) refl refl
      (ground arith) (ground arith) refl refl refl

abbrev ping : Json
ping = object (
    entry "type" (text "sync:ping")
      (entry "payload" (object (entry "clientSendTime" (number (finite false 7000)) end)) end))

abbrev pong_message : Json
pong_message = object (
    entry "type" (text "sync:pong") (
      entry "payload"
        (object (
          entry "clientSendTime" (number (finite false 7000)) (
            entry "serverReceiveTime" (number (finite false 8000))
              (entry "serverSendTime" (number (finite false 9000)) end))))
        end))

is_server_message_sound_example : is_of server_message_types (some pong_message) ≡ true
unfolding text_discrete is_server_message find_field
is_server_message_sound_example =
    is_server_message_sound (λ _. false) (λ _. false) (some pong_message) refl

is_client_message_sound_example : is_of client_message_types (some ping) ≡ true
unfolding text_discrete is_client_message find_field
is_client_message_sound_example = is_client_message_sound (λ _. false) (some ping) refl
