-- ===== src/Sockets/Heartbeat.antt =====
-- server/src/ws-heartbeat.ts, createWsHeartbeat. A socket is its id. `throws x` says that
-- terminate() of the socket x throws; the events are the calls and what the sockets report.
use bili_sync_play.Prelude.{
  Bool, List, String, [], if◌then◌else◌, leb, none, some, ℕ, ◌++◌, ◌+◌, ◌∷◌,
}
use bili_sync_play.Prelude.Dict
use bili_sync_play.Prelude.Dict.{Dict}
use bili_sync_play.Session.{Session}
pub mod Laws

abbrev pub missed_pong_threshold : ℕ
missed_pong_threshold = 2

pub record Entry : Type 0 where
  pub session : Session
  pub missed_pongs : ℕ

abbrev pub Tracked : Type 0
Tracked = Dict Entry

unfoldable pub track : Bool → String → Session → Tracked → Tracked
track enabled socket session tracked =
    if enabled
    then Dict.put socket (record { session = session; missed_pongs = 0 }) tracked
    else tracked

-- The listener on "pong".
unfoldable pub pong : String → Tracked → Tracked
pong socket tracked = elim (Dict.get socket tracked) [
  | none ↦ tracked
  | some entry ↦ Dict.put socket (record entry { missed_pongs = 0 }) tracked
]

-- The listener on "close".
unfoldable pub close : String → Tracked → Tracked
close socket tracked = Dict.remove socket tracked

-- What is tracked after the sweep, the sockets that were terminated, and those that are to be pinged
-- if they are open.
pub record Sweep : Type 0 where
  pub tracked : Tracked
  pub terminated : List String
  pub alive : List String

-- One sweep, entry by entry: a terminate() that throws leaves its entry for the next sweep.
unfoldable pub sweep_now : (String → Bool) → Tracked → Sweep
sweep_now throws [] = record { tracked = []; terminated = []; alive = [] }
sweep_now throws ((socket, entry) ∷ rest) =
    let swept = sweep_now throws rest in
    if leb missed_pong_threshold entry.missed_pongs
    then (if throws socket
        then record swept { tracked = (socket, entry) ∷ swept.tracked }
        else record swept { terminated = socket ∷ swept.terminated })
    else record swept {
      tracked = (socket, record entry { missed_pongs = entry.missed_pongs + 1 }) ∷ swept.tracked;
      alive = socket ∷ swept.alive;
    }

pub data Event : Type 0 where
  tracks : String → Session → Event
  pongs closes : String → Event
  sweeps : (String → Bool) → Event

-- What is tracked, and what was terminated so far.
unfoldable pub run : Bool → List Event → Tracked → Tracked × List String
unfolding track pong close sweep_now
run enabled [] tracked = (tracked, [])
run enabled (tracks socket session ∷ events) tracked =
    run enabled events (track enabled socket session tracked)
run enabled (pongs socket ∷ events) tracked = run enabled events (pong socket tracked)
run enabled (closes socket ∷ events) tracked = run enabled events (close socket tracked)
run enabled (sweeps throws ∷ events) tracked =
    let swept = sweep_now throws tracked in
    let (tracked', terminated) = run enabled events swept.tracked in
    (tracked', swept.terminated ++ terminated)
