-- ===== src/Background/Share/Laws.antt =====
-- A pending share against the states of the room: theorems on Background/Share.antt.
use bili_sync_play.Prelude.{
  Bool, Option, String, arith, false, same_option, some, true, truthy, ℕ, ◌+◌, ◌<◌, ◌≡◌, ◌≤◌,
}
use bili_sync_play.Protocol.{RoomState}
use bili_sync_play.Background.Share.{
  clear_pending_local_share, decide_incoming_room_state, expire_pending_local_share_if_needed,
  prepare_pending_local_share_cleanup, settle_decision, ShareState, apply,
  clear_pending_local_share_state, get_active_pending_local_share_url, ignore_stale,
  judge_room_state, normalized, set_pending_local_share, shared_url,
}

-- What becomes of a share of `page` that was begun as `s`, when the room's state arrives.
pub record IsJudged (normalize : String → Option String) (page : String) (end now now' : ℕ)
    (current : Option RoomState) (next : RoomState) (s : ShareState) : Type 0 where
  pub stale :
      now < end
      → now' < end
      → same_option (normalized normalize (shared_url (some next))) (some page) ≡ false
      → judge_room_state normalize now now' current next s ≡ (s, ignore_stale)
  pub confirmed :
      now < end
      → now' < end
      → same_option (normalized normalize (shared_url (some next))) (some page) ≡ true
      → let (s', decision) = judge_room_state normalize now now' current next s in
        (decision ≡ apply (shared_url current) true)
        × (s'.pending ≡ clear_pending_local_share_state)
  pub over :
      end ≤ now
      → let (s', decision) = judge_room_state normalize now now' current next s in
        (decision ≡ apply (shared_url current) false)
        × (s'.pending ≡ clear_pending_local_share_state)

-- A video that the member shares is not taken back by a state of the room that was sent before it: until
-- ten seconds have passed, a state about another page is ignored and changes nothing, and one about
-- the shared page is applied as the confirmation and ends the waiting; after that every state is
-- applied, and nothing is pending. The address and its normal form are not empty.
pub share_is_awaited :
    (normalize : String → Option String) (begun now now' generation timer : ℕ) (url page : String)
    (is_auto_share : Bool) (current : Option RoomState) (next : RoomState) (before : ShareState)
    → truthy (some url) ≡ some url
    → normalize url ≡ some page
    → truthy (some page) ≡ some page
    → IsJudged normalize page
        (begun + 10000)
        now
        now'
        current
        next
        (set_pending_local_share begun generation timer url is_auto_share before)
unfolding set_pending_local_share judge_room_state settle_decision clear_pending_local_share
    prepare_pending_local_share_cleanup get_active_pending_local_share_url
    decide_incoming_room_state expire_pending_local_share_if_needed
share_is_awaited normalize begun now now' generation timer url page is_auto_share current next
      before filled known page_filled =
    record {
      stale =
          λ early early' other. ground (arith, early, early', other, filled, known, page_filled);
      confirmed =
          λ early early' own. ground (arith, early, early', own, filled, known, page_filled);
      over = λ late. ground (arith, late, filled, known, page_filled);
    }
