-- ===== src/Content/Override/Laws.antt =====
-- What protects a member's own seek: theorems on Content/Override.antt.
use bili_sync_play.Prelude.{Option, String, arith, dist, false, some, true, ℕ, ◌+◌, ◌<◌, ◌↔◌, ◌≡◌}
use bili_sync_play.Protocol.{PlaybackState, is_seek_intent}
use bili_sync_play.Content.Guards.{ExplicitUserAction}
use bili_sync_play.Content.Override.{
  PendingLocalPlaybackOverride, get_pending_local_playback_override_decision,
  get_pending_local_seek_override_decision, is_about, is_self_echo,
  remember_pending_local_playback_override, seek,
}

-- A seek of the member is not undone by what the room says meanwhile: a playback is ignored exactly if it
-- comes within five seconds of the seek, is about the same page, is not the member's own frame of
-- the seek or a later one, and lies more than 0.35 s from the target; and as long as playbacks are
-- ignored, the seek stays protected as it was.
pub seek_is_protected :
    (normalize : String → Option String) (grace_ms sent_at now : ℕ)
    (action : Option ExplicitUserAction) (local_member_id : Option String)
    (sent playback : PlaybackState) (page : String) (before : Option PendingLocalPlaybackOverride)
    → is_seek_intent sent.sync_intent ≡ true
    → normalize sent.url ≡ some page
    → let guard =
        remember_pending_local_playback_override normalize grace_ms action sent sent_at before in
      let pending : PendingLocalPlaybackOverride = record {
        kind = seek (some sent.current_time);
        url = page;
        seq = sent.seq;
        expires_at = sent_at + 5000;
      } in
      let (after, ignored) =
        get_pending_local_playback_override_decision normalize local_member_id now
          (some playback)
          guard in
      ((ignored ≡ true) ↔ (
        (now < sent_at + 5000)
        × (is_about normalize playback page ≡ true)
        × (is_self_echo local_member_id playback pending ≡ false)
        × (350 < dist playback.current_time sent.current_time)))
      × (ignored ≡ true → after ≡ guard)
unfolding remember_pending_local_playback_override get_pending_local_playback_override_decision
    get_pending_local_seek_override_decision
seek_is_protected normalize grace_ms sent_at now action local_member_id sent playback page before
      is_seek known =
    (ground (arith, is_seek, known), λ h. ground (arith, is_seek, known, h))
