-- ===== src/Tests/Page.antt =====
-- What the extension decides, at concrete inputs.
use bili_sync_play.Prelude.{
  String, Option, [], dist, false, none, refl, some, true, ◌+◌, ◌<◌, ◌↔◌, ◌≡◌,
}
use bili_sync_play.Prelude.{keep, not, same, ◌∷◌}
use bili_sync_play.Prelude.Tests.{text_discrete}
use bili_sync_play.Protocol.{PlaybackState, RoomState, explicit_seek}
use bili_sync_play.Background.Share.{
  ShareState, clear_pending_local_share_state, set_pending_local_share,
}
use bili_sync_play.Background.Share.Laws.{IsJudged, share_is_awaited}
use bili_sync_play.Background.Members.{Deltas, consume_pending_member_deltas, joined, left}
use bili_sync_play.Background.Members.Laws.{
  consume_pending_member_deltas-last_word, last_word, name_of,
}
use bili_sync_play.Messages.{with_playback_age}
use bili_sync_play.Background.Clock.{
  compensate_room_state, mark_playback_arrival, resolve_playback_anchor_at_ms,
}
use bili_sync_play.Background.Clock.Laws.{age_of, snapshot_is_caught_up}
use bili_sync_play.Prelude.{arith, ◌*◌, ◌-◌, ◌/◌}
use bili_sync_play.Content.Override.{
  PendingLocalPlaybackOverride, get_pending_local_playback_override_decision, is_about,
  is_self_echo, remember_pending_local_playback_override, seek,
}
use bili_sync_play.Content.Override.Laws.{seek_is_protected}
use bili_sync_play.Tests.Values.{frame, video}

abbrev plain : String → Option String
plain url = some url

abbrev idle : ShareState
idle = record {
  pending = clear_pending_local_share_state;
  pending_local_share_generation = none;
  pending_local_share_is_auto_share = false;
  last_opened_shared_url = none;
}

abbrev shown : RoomState
shown = record { room_code = "R"; shared_video = some video; playback = none; members = [] }

share_is_awaited_example :
    IsJudged plain "v"
      (1000 + 10000)
      2000
      2001
      none
      shown
      (set_pending_local_share 1000 1 7 "v" false idle)
unfolding text_discrete
share_is_awaited_example =
    share_is_awaited plain 1000 2000 2001 1 7 "v" "v" false none shown idle refl refl refl

abbrev seeked_frame : PlaybackState
seeked_frame = record frame { sync_intent = some explicit_seek; current_time = 90000; seq = 4 }

seek_is_protected_example :
    let guard = remember_pending_local_playback_override plain 1200 none seeked_frame 2000 none in
    let pending : PendingLocalPlaybackOverride = record {
      kind = seek (some 90000);
      url = "u";
      seq = 4;
      expires_at = 2000 + 5000;
    } in
    let (after, ignored) =
      get_pending_local_playback_override_decision plain (some "b") 3000 (some frame) guard in
    ((ignored ≡ true) ↔ (
      (3000 < 2000 + 5000)
      × (is_about plain frame "u" ≡ true)
      × (is_self_echo (some "b") frame pending ≡ false)
      × (350 < dist 5000 90000)))
    × (ignored ≡ true → after ≡ guard)
seek_is_protected_example =
    seek_is_protected plain 1200 2000 3000 none (some "b") seeked_frame frame "u" none refl refl

-- Bob comes and goes, and comes back under another name; Ann comes to another room.
abbrev queued : Deltas
queued =
    record { kind = joined; room_code = "R"; member = record { id = "b"; name = "Bob" } }
    ∷ record { kind = left; room_code = "R"; member = record { id = "b"; name = "Bob" } }
    ∷ record { kind = joined; room_code = "S"; member = record { id = "a"; name = "Ann" } }
    ∷ record { kind = joined; room_code = "R"; member = record { id = "b"; name = "Rob" } }
    ∷ []

consume_pending_member_deltas-last_word_example :
    let (resolved, remaining) = consume_pending_member_deltas shown queued in
    (name_of "b" resolved.members ≡ last_word "R" "b" queued (name_of "b" []))
    × (remaining ≡ keep (λ d. not (same d.room_code "R")) queued)
consume_pending_member_deltas-last_word_example =
    consume_pending_member_deltas-last_word "b" shown queued

abbrev playing_room : RoomState
playing_room = record shown { playback = some frame }

-- The server's clock stands at 3500, two and a half seconds after the frame; the client's at 60000.
snapshot_is_caught_up_example :
    let anchor =
      mark_playback_arrival
        (some frame)
        (resolve_playback_anchor_at_ms 60000 (age_of (with_playback_age playing_room 3500)))
        none in
    let position = 5000 + ((3500 - 1000) + (60400 - 60000)) * 1000 / 1000 in
    (compensate_room_state playing_room none 60400 anchor).1
    ≡ record playing_room { playback = some (record frame { current_time = position }) }
snapshot_is_caught_up_example =
    snapshot_is_caught_up playing_room frame 3500 60000 60400 none refl refl (ground arith)
      (ground arith) (ground arith) (ground arith) refl
