-- ===== src/Content/Apply/Laws.antt =====
-- The versions of one actor only move forward: theorems on Content/Apply.antt.
use bili_sync_play.Prelude.{
  Bool, Bool-cases, List, Option, Option-cases, String, [], ap, arith, false, if◌then◌else◌, inl,
  inr, none, refl, same, some, subst, sym, true, truthy, ◌<◌, ◌∷◌, ◌≡◌, ◌⊎◌,
}
use bili_sync_play.Prelude.Dict
use bili_sync_play.Prelude.Dict.{Dict}
use bili_sync_play.Protocol.{PlaybackState, SharedVideo}
use bili_sync_play.Content.Apply.{
  PlaybackApplyDecision, PlaybackApplyDecisionInput, PlaybackVersion, empty_room,
  ignore_local_guard, ignore_non_shared, ignore_self_playback_version, ignore_stale_playback,
  keep_version, no_current_video, applied_run, apply, with_applied, apply_room_state,
  decide_on_shared_page, decide_playback_application, is_on_shared_page, last_applied_for,
  version_of,
}

-- The order of versions: the server's time first, then the number of the frame.
abbrev pub IsNewer : PlaybackVersion → PlaybackVersion → Type 0
IsNewer last next =
    (last.server_time < next.server_time)
    ⊎ ((last.server_time ≡ next.server_time) × (last.seq < next.seq))

-- Newer than the version that was kept, if one was.
abbrev pub IsAfter : Option PlaybackVersion → PlaybackVersion → Type 0
IsAfter none next = Unit
IsAfter (some last) next = IsNewer last next

-- Each playback is newer than the one before it, and the first than the version given.
abbrev pub IsForward : Option PlaybackVersion → List PlaybackState → Type 0
IsForward last [] = Unit
IsForward last (p ∷ ps) = IsAfter last (version_of p) × IsForward (some (version_of p)) ps

abbrev pub by_actor : String → List PlaybackState → List PlaybackState
by_actor actor [] = []
by_actor actor (p ∷ ps) =
    let rest = by_actor actor ps in if same p.actor_id actor then p ∷ rest else rest

on_shared_page :
    (input : PlaybackApplyDecisionInput)
    → is_on_shared_page input ≡ true
    → (input.normalized_current_url ≡ input.normalized_shared_url)
      × (input.normalized_playback_url ≡ input.normalized_shared_url)
on_shared_page input h = elim (Option-cases (truthy input.normalized_shared_url)) [
  | inl e ↦ absurd (ground arith)
  | inr (url, e) ↦ (ground arith, ground arith)
]

decide_on_shared_page-IsAfter :
    (input : PlaybackApplyDecisionInput) (held playback : PlaybackState) (own : Bool)
    → decide_on_shared_page input held ≡ apply own playback
    → (held ≡ playback) × IsAfter input.last_applied_version (version_of held)
unfolding decide_on_shared_page
decide_on_shared_page-IsAfter input held playback own h =
    elim (Option-cases input.last_applied_version) [
      | inl e ↦ (ground arith, rw e tt)
      | inr (last, e) ↦
          let newer : IsNewer last (version_of held) = ground arith in (ground arith, rw e newer)
    ]

by_actor-IsForward :
    (actor : String) (versions : Dict PlaybackVersion) (p : PlaybackState) (ps : List PlaybackState)
    → IsAfter (Dict.get p.actor_id versions) (version_of p)
    → IsForward (Dict.get actor (Dict.put p.actor_id (version_of p) versions)) (by_actor actor ps)
    → IsForward (Dict.get actor versions) (by_actor actor (p ∷ ps))
by_actor-IsForward actor versions p ps after rest =
    let kept = Dict.get-put p.actor_id actor (version_of p) versions in
    elim (Bool-cases (same p.actor_id actor)) [
      | inl mine ↦
          let own : Dict.get p.actor_id versions ≡ Dict.get actor versions = ground (arith, mine) in
          rw mine (
            subst (λ (v : Option PlaybackVersion). IsAfter v (version_of p)) own after,
            subst (λ (v : Option PlaybackVersion). IsForward v (by_actor actor ps))
                (ground (arith, mine, kept)) rest,
          )
      | inr other ↦ rw other (
          subst (λ (v : Option PlaybackVersion). IsForward v (by_actor actor ps))
            (ground (arith, other, kept)) rest)
    ]

keep_version-cases :
    (versions : Dict PlaybackVersion) (goes_through : Bool) (decision : PlaybackApplyDecision)
    → (keep_version versions goes_through decision ≡ (versions, none))
      ⊎ ((own : Bool) × (p : PlaybackState) × (decision ≡ apply own p)
          × (keep_version versions goes_through decision
              ≡ (Dict.put p.actor_id (version_of p) versions, some p)))
keep_version-cases versions true (apply own p) = inr (own, p, refl, refl)
keep_version-cases versions false (apply own p) = inl refl
keep_version-cases versions goes_through (empty_room hydrated) = inl refl
keep_version-cases versions goes_through no_current_video = inl refl
keep_version-cases versions goes_through (ignore_non_shared hydrated pauses) = inl refl
keep_version-cases versions goes_through ignore_local_guard = inl refl
keep_version-cases versions goes_through ignore_stale_playback = inl refl
keep_version-cases versions goes_through ignore_self_playback_version = inl refl

module _ (has_stable : SharedVideo → Bool) where
  -- What is applied is the room's playback, on the page of the room's video, and newer than
  -- the version that the decision was given.
  applied_playback :
      (input : PlaybackApplyDecisionInput) (own : Bool) (playback : PlaybackState)
      → decide_playback_application has_stable input ≡ apply own playback
      → (input.room_state.playback ≡ some playback)
        × (input.normalized_current_url ≡ input.normalized_shared_url)
        × (input.normalized_playback_url ≡ input.normalized_shared_url)
        × IsAfter input.last_applied_version (version_of playback)
  unfolding decide_playback_application
  applied_playback input own playback h = elim (Option-cases input.room_state.shared_video) [
    | inl e ↦ absurd (ground arith)
    | inr (shared, e) ↦ elim (Option-cases input.room_state.playback) [
      | inl e' ↦ absurd (ground arith)
      | inr (held, e') ↦ elim (Option-cases input.current_video) [
        | inl e'' ↦ absurd (ground arith)
        | inr (video, e'') ↦
            let (eq, after) =
              decide_on_shared_page-IsAfter input held playback own (ground arith) in
            let (page, frame) = on_shared_page input (ground arith) in
            (
              ground arith,
              page,
              frame,
              subst (λ (p : PlaybackState). IsAfter input.last_applied_version (version_of p)) eq
                  after,
            )
      ]
    ]
  ]

  -- One room state: nothing is applied and nothing is kept, or its playback is applied, is newer than
  -- what was kept for its actor, and is kept in its place.
  apply_room_state-cases :
      (versions : Dict PlaybackVersion) (input : PlaybackApplyDecisionInput) (goes_through : Bool)
      → (apply_room_state has_stable versions input goes_through ≡ (versions, none))
        ⊎ ((p : PlaybackState) × (apply_room_state has_stable versions input goes_through
              ≡ (Dict.put p.actor_id (version_of p) versions, some p))
            × IsAfter (Dict.get p.actor_id versions) (version_of p))
  unfolding apply_room_state
  apply_room_state-cases versions input goes_through =
      let judged : PlaybackApplyDecisionInput = record input {
        last_applied_version = last_applied_for versions input.room_state;
      } in
      elim (keep_version-cases versions goes_through
        (decide_playback_application has_stable judged)) [
          | inl e ↦ inl e
          | inr (own, p, e, kept) ↦
              let (here, _, _, after) = applied_playback judged own p e in
              let last : last_applied_for versions input.room_state ≡ Dict.get p.actor_id versions =
                ground arith in
              inr (
                p,
                kept,
                subst (λ (v : Option PlaybackVersion). IsAfter v (version_of p)) last after,
              )
        ]

  applied_run-step :
      (versions : Dict PlaybackVersion) (input : PlaybackApplyDecisionInput) (goes_through : Bool)
      (states : List (PlaybackApplyDecisionInput × Bool)) (next : Dict PlaybackVersion)
      (applied : Option PlaybackState)
      → apply_room_state has_stable versions input goes_through ≡ (next, applied)
      → applied_run has_stable versions ((input, goes_through) ∷ states)
        ≡ with_applied applied (applied_run has_stable next states)
  unfolding applied_run
  applied_run-step versions input goes_through states next applied e =
      ap
        (λ (r : Dict PlaybackVersion × Option PlaybackState).
          with_applied r.1 (applied_run has_stable r.0 states))
        e

  -- The playbacks of one member that are let through to the page's video, out of any sequence of room
  -- states with any versions kept at its start, and while these versions are not cleared, move
  -- strictly forward, first by the server's time and then by the frame's number, from the version that was
  -- kept for this member on. Of the playbacks of different members among each other nothing is said.
  pub applied_run-IsForward :
      (actor : String) (versions : Dict PlaybackVersion)
      (states : List (PlaybackApplyDecisionInput × Bool))
      → IsForward
          (Dict.get actor versions)
          (by_actor actor (applied_run has_stable versions states))
  unfolding applied_run
  applied_run-IsForward actor versions [] = tt
  applied_run-IsForward actor versions ((input, goes_through) ∷ states) =
      let last = Dict.get actor versions in
      let step = applied_run-step versions input goes_through states in
      elim (apply_room_state-cases versions input goes_through) [
        | inl e ↦
            subst (λ (ps : List PlaybackState). IsForward last (by_actor actor ps))
              (sym (step versions none e)) (applied_run-IsForward actor versions states)
        | inr (p, e, after) ↦
            let next = Dict.put p.actor_id (version_of p) versions in
            subst (λ (ps : List PlaybackState). IsForward last (by_actor actor ps))
              (sym (step next (some p) e))
              (by_actor-IsForward actor versions p (applied_run has_stable next states) after
                (applied_run-IsForward actor next states))
      ]
