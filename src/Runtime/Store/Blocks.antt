-- ===== src/Runtime/Store/Blocks.antt =====
-- Kicking a member: theorems on the blocked tokens of Runtime/Store.antt.
use bili_sync_play.Prelude.{
  Bool, List, String, [], any, arith, ltb, none, or_else, refl, same, true, ℕ, ◌&&◌, ◌<◌, ◌∷◌, ◌≡◌,
  ◌≢◌, ◌≤◌,
}
use bili_sync_play.Prelude.Dict
use bili_sync_play.Prelude.Dict.{Dict}
use bili_sync_play.Runtime.Rooms.{KickedMemberBlock, filter_active_blocked_member_tokens}
use bili_sync_play.Runtime.Rooms.Laws.{revoke_member_token_lem, token_of}
use bili_sync_play.Runtime.Store.{
  Runtime, block_token, evict_member_token, is_blocked_in, is_member_token_blocked,
  prune_blocked_member_tokens, revoke_member_token,
}

-- An entry of the list blocks the token at time `t`.
abbrev pub blocks_at : ℕ → String → List KickedMemberBlock → Bool
blocks_at t token entries = any (λ e. ltb t e.expires_at && same e.member_token token) entries

is_blocked_in-active :
    (t : ℕ) (token : String) (entries : List KickedMemberBlock)
    → is_blocked_in token (filter_active_blocked_member_tokens entries t)
      ≡ blocks_at t token entries
is_blocked_in-active t token [] = refl
is_blocked_in-active t token (e ∷ entries) = ground (arith, is_blocked_in-active t token entries)

blocks_at-active :
    (t now : ℕ) (token : String) (entries : List KickedMemberBlock)
    → now ≤ t
    → blocks_at t token (filter_active_blocked_member_tokens entries now)
      ≡ blocks_at t token entries
blocks_at-active t now token [] h = refl
blocks_at-active t now token (e ∷ entries) h =
    ground (arith, blocks_at-active t now token entries h)

blocks_at-block_token :
    (t until : ℕ) (token : String) (entries : List KickedMemberBlock)
    → t < until
    → blocks_at t token (block_token token until entries) ≡ true
unfolding block_token
blocks_at-block_token t until token [] h = ground arith
blocks_at-block_token t until token (e ∷ entries) h =
    ground (arith, blocks_at-block_token t until token entries h)

blocks_at-block_token_ne :
    (t until : ℕ) (token other : String) (entries : List KickedMemberBlock)
    → token ≢ other
    → blocks_at t other (block_token token until entries) ≡ blocks_at t other entries
unfolding block_token
blocks_at-block_token_ne t until token other [] ne = ground arith
blocks_at-block_token_ne t until token other (e ∷ entries) ne =
    ground (arith, blocks_at-block_token_ne t until token other entries ne)

abbrev pub blocks_of : String → Runtime → List KickedMemberBlock
blocks_of code rt = or_else (Dict.get code rt.blocked_member_tokens) []

-- A kick is one commit: until `blocked_until` the token is refused, the member has no token in the
-- room any more, and every other token is refused from then on as it was before.
pub evict_member_token_lem :
    (t later : ℕ) (code id token other : String) (blocked_until : ℕ) (rt : Runtime)
    → t ≤ later
    → later < blocked_until
    → token ≢ other
    → let rt' = evict_member_token t code id token blocked_until rt in
      ((is_member_token_blocked code token later rt').1 ≡ true)
      × (token_of rt'.rooms code id ≡ none)
      × ((is_member_token_blocked code other later rt').1
          ≡ (is_member_token_blocked code other later rt).1)
unfolding evict_member_token is_member_token_blocked prune_blocked_member_tokens revoke_member_token
evict_member_token_lem t later code id token other blocked_until rt h early ne =
    let pruned = (prune_blocked_member_tokens code t rt).0 in
    let active = filter_active_blocked_member_tokens (blocks_of code rt) t in
    let blocked = block_token token blocked_until active in
    let stored = Dict.get-put_self code blocked pruned.blocked_member_tokens in
    (
      ground (
        arith,
        is_blocked_in-active later token blocked,
        blocks_at-block_token later blocked_until token active early,
      ),
      (revoke_member_token_lem rt.rooms code id id).0,
      ground (
        arith,
        is_blocked_in-active later other blocked,
        is_blocked_in-active later other (blocks_of code rt),
        blocks_at-block_token_ne later blocked_until token other active ne,
        blocks_at-active later t other (blocks_of code rt) h,
      ),
    )
