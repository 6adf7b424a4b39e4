-- ===== src/Owner.antt =====
-- server/src/shared-video-owner.ts: which member a room's share is presented under, from the member
-- who shared it and those who are online.
use bili_sync_play.Prelude.{
  Bool, List, Option, String, [], any, false, if◌then◌else◌, ltb, map, none, not, same, same_option,
  some, text_lt, true, truthy, ℕ, ◌++◌, ◌==◌, ◌∷◌,
}
pub mod Laws

-- A `joinedAt` that is null or undefined is none, and counts as +Infinity.
pub record Candidate : Type 0 where
  pub id : String
  pub joined_at : Option ℕ

abbrev pub joined_before : Option ℕ → Option ℕ → Bool
joined_before none r = false
joined_before (some l) none = true
joined_before (some l) (some r) = ltb l r

abbrev pub joined_together : Option ℕ → Option ℕ → Bool
joined_together none none = true
joined_together (some l) (some r) = l == r
joined_together _ _ = false

-- `compareCandidates(left, right) < 0`
abbrev pub precedes : Candidate → Candidate → Bool
precedes left right =
    if joined_together left.joined_at right.joined_at
    then text_lt left.id right.id
    else joined_before left.joined_at right.joined_at

abbrev pub is_online : String → List Candidate → Bool
is_online id members = any (λ m. same m.id id) members

-- the loop over the members; the first argument is `successor`
unfoldable pub elect : Option Candidate → List Candidate → Option Candidate
elect successor [] = successor
elect none (m ∷ ms) = elect (some m) ms
elect (some s) (m ∷ ms) = elect (some (if precedes m s then m else s)) ms

-- `successor?.id ?? sharedByMemberId`
abbrev pub id_or : Option Candidate → String → String
id_or none id = id
id_or (some c) id = c.id

unfoldable pub resolve_shared_video_owner_id : Option String → List Candidate → Option String
resolve_shared_video_owner_id shared members = elim (truthy shared) [
  | none ↦ none
  | some id ↦ if is_online id members then some id else some (id_or (elect none members) id)
]

abbrev pub replace_tenure : Candidate → List Candidate → List Candidate
replace_tenure leaving members = map (λ m. if same m.id leaving.id then leaving else m) members

unfoldable pub members_before : Candidate → List Candidate → List Candidate
members_before leaving after =
    if is_online leaving.id after then replace_tenure leaving after else after ++ leaving ∷ []

unfoldable pub shared_video_owner_changed_on_leave :
    Option String → List Candidate → Candidate → Bool
unfolding members_before
shared_video_owner_changed_on_leave shared after leaving = not (
    same_option (resolve_shared_video_owner_id shared (members_before leaving after))
      (resolve_shared_video_owner_id shared after))
