-- ===== src/Runtime/Sessions/Index.antt =====
-- What a session's departure does to the index of rooms: theorems on the loop of
-- detachSessionFromRoomIndexes in server/src/runtime-store-state.ts.
use bili_sync_play.Prelude.{
  List, Option, Option-cases, String, [], arith, false, if◌then◌else◌, inl, inr, is_nil, none, refl,
  same, some, truthy, ◌||◌, ◌∷◌, ◌≡◌,
}
use bili_sync_play.Prelude.Dict
use bili_sync_play.Prelude.Dict.{Dict}
use bili_sync_play.Prelude.Sets
use bili_sync_play.Runtime.Sessions.{detach_from, detach_session_from_room_indexes, take_from}

-- The ids of one room without the session; the last one takes the entry with it.
abbrev pub without : String → Option (List String) → Option (List String)
without id none = none
without id (some ids) = if is_nil (Sets.delete id ids) then none else some (Sets.delete id ids)

pub get-take_from :
    (id code other : String) (index : Dict (List String))
    → Dict.get other (take_from id code index)
      ≡ (if same code other then without id (Dict.get other index) else Dict.get other index)
unfolding take_from
get-take_from id code other index = elim (Option-cases (Dict.get code index)) [
  | inl e ↦ ground (arith, e)
  | inr (ids, e) ↦ ground (
    arith,
    e,
    Dict.get-put code other (Sets.delete id ids) index,
    Dict.get-remove code other index,
  )
]

get-detach_from :
    (id other : String) (visited codes : List String) (index : Dict (List String))
    → Dict.get other (detach_from id visited codes index) ≡ (
        if Sets.contains other visited
        then Dict.get other index
        else if Sets.contains other codes
        then without id (Dict.get other index)
        else Dict.get other index)
unfolding detach_from Sets.contains
get-detach_from id other visited [] index = ground arith
get-detach_from id other visited (code ∷ codes) index = ground (
  arith,
  get-detach_from id other visited codes index,
  get-detach_from id other (code ∷ visited) codes (take_from id code index),
  get-take_from id code other index,
)

keys_complete :
    (code : String) (index : Dict (List String))
    → Sets.contains code (Dict.keys index) ≡ false
    → Dict.get code index ≡ none
unfolding Sets.contains Dict.get Dict.keys
keys_complete code [] h = refl
keys_complete code ((k, v) ∷ index) h =
    let h' : (same k code || Sets.contains code (Dict.keys index)) ≡ false = h in
    let end : (if same k code then some v else Dict.get code index) ≡ none =
      ground (arith, keys_complete code index) in
    end

-- Detaching a session takes it out of every room, whatever room is preferred, leaves the other ids of
-- each room in order, and drops exactly the rooms that are empty then.
pub detach_is_pointwise :
    (id other : String) (preferred : Option String) (index : Dict (List String))
    → Dict.get other (detach_session_from_room_indexes id preferred index)
      ≡ without id (Dict.get other index)
unfolding detach_session_from_room_indexes Sets.contains
detach_is_pointwise id other preferred index = elim (Option-cases (truthy preferred)) [
  | inl e ↦
      ground
        (arith, e, get-detach_from id other [] (Dict.keys index) index, keys_complete other index)
  | inr (code, e) ↦ ground (
    arith,
    e,
    get-detach_from id other [] (code ∷ Dict.keys index) index,
    keys_complete other index,
  )
]
