-- ===== src/Content/Guards/Laws.antt =====
-- When a page other than the room's is paused: theorems on Content/Guards.antt.
use bili_sync_play.Prelude.{Option, String, arith, false, some, truthy, ℕ, ◌≡◌, ◌⊎◌}
use bili_sync_play.Content.Guards.{
  ExplicitPlaybackAction, NonSharedPageGuardInput, evaluate_non_shared_page_guard, guard_other_page,
}

-- A page that the guard lets play while a room shares a video is the shared one, or one that the
-- member has started: the guard remembers it then, or it was remembered before.
guard_lets_play :
    (input : NonSharedPageGuardInput) (room shared url : String)
    → truthy input.active_room_code ≡ some room
    → truthy input.active_shared_url ≡ some shared
    → truthy input.normalized_current_url ≡ some url
    → (evaluate_non_shared_page_guard input).0 ≡ false
    → (shared ≡ url) ⊎ ((evaluate_non_shared_page_guard input).1 ≡ some url)
unfolding evaluate_non_shared_page_guard guard_other_page
guard_lets_play input room shared url r s u h = ground arith

-- What the member has started keeps playing: asked again about the same page of the same room,
-- at any time and after any action, the guard does not pause the video that still plays.
pub guard_keeps_playing :
    (input : NonSharedPageGuardInput) (action : Option ExplicitPlaybackAction) (later : ℕ)
    → (evaluate_non_shared_page_guard input).0 ≡ false
    → let again = record input {
      explicit_non_shared_playback_url = (evaluate_non_shared_page_guard input).1;
      last_explicit_playback_action = action;
      now = later;
    } in
      evaluate_non_shared_page_guard again ≡ evaluate_non_shared_page_guard input
unfolding evaluate_non_shared_page_guard guard_other_page
guard_keeps_playing input action later h = ground arith
