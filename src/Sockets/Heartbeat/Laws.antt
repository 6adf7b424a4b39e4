-- ===== src/Sockets/Heartbeat/Laws.antt =====
-- How long a silent socket lives: theorems on Sockets/Heartbeat.antt.
use bili_sync_play.Prelude.{
  All, Bool, Bool-cases, List, Option, Option-cases, String, [], arith, false, if◌then◌else◌, inl,
  inr, leb, ltb, none, refl, same, some, true, ℕ, ◌+◌, ◌∙◌, ◌∷◌, ◌≡◌, ◌≤◌,
}
use bili_sync_play.Prelude.Dict
use bili_sync_play.Prelude.Sets
use bili_sync_play.Session.{Session}
use bili_sync_play.Sockets.Heartbeat.{
  Entry, Event, Tracked, close, closes, pong, pongs, run, sweep_now, sweeps, track, tracks,
}

-- The sweeps that a socket has missed, if it is tracked.
abbrev pub missed : String → Tracked → Option ℕ
missed socket tracked = elim (Dict.get socket tracked) [
  | none ↦ none
  | some entry ↦ some entry.missed_pongs
]

missed-sweep_now-none :
    (throws : String → Bool) (x : String) (tracked : Tracked)
    → Dict.get x tracked ≡ none
    → (Dict.get x (sweep_now throws tracked).tracked ≡ none)
      × (Sets.contains x (sweep_now throws tracked).terminated ≡ false)
unfolding sweep_now Dict.get Sets.contains
missed-sweep_now-none throws x [] h = (refl, refl)
missed-sweep_now-none throws x ((socket, entry) ∷ rest) h =
    let other : same socket x ≡ false = ground (arith, h) in
    let (gone, spared) = missed-sweep_now-none throws x rest (ground (arith, h)) in
    (ground (arith, other, gone), ground (arith, other, spared))

sweep_now-IsDistinct :
    (throws : String → Bool) (tracked : Tracked)
    → Dict.IsDistinct tracked
    → Dict.IsDistinct (sweep_now throws tracked).tracked
unfolding sweep_now
sweep_now-IsDistinct throws [] d = tt
sweep_now-IsDistinct throws ((socket, entry) ∷ rest) d =
    let (gone, _) = missed-sweep_now-none throws socket rest d.0 in
    ground (arith, gone, sweep_now-IsDistinct throws rest d.1)

-- One sweep, seen from one socket: terminated at two missed pongs, or else one more is counted.
missed-sweep_now :
    (throws : String → Bool) (x : String) (n : ℕ) (tracked : Tracked)
    → Dict.IsDistinct tracked
    → throws x ≡ false
    → missed x tracked ≡ some n
    → (missed x (sweep_now throws tracked).tracked ≡ (if leb 2 n then none else some (n + 1)))
      × (Sets.contains x (sweep_now throws tracked).terminated ≡ leb 2 n)
unfolding sweep_now Dict.get Sets.contains
missed-sweep_now throws x n [] d sound h = absurd (ground (arith, h))
missed-sweep_now throws x n ((socket, entry) ∷ rest) d sound h = elim (Bool-cases (same socket x)) [
  | inl e ↦
      let here : socket ≡ x = ground (arith, e) in
      let (gone, spared) = missed-sweep_now-none throws x rest (ground (arith, here, d.0)) in
      (ground (arith, h, sound, e, here, gone), ground (arith, h, sound, e, here, spared))
  | inr e ↦
      let (kept, told) = missed-sweep_now throws x n rest d.1 sound (ground (arith, h, e)) in
      (ground (arith, e, kept), ground (arith, e, told))
]

-- The event is not from the socket, and a sweep could terminate it.
abbrev pub IsSilent : String → Event → Type 0
IsSilent x (tracks socket _) = same socket x ≡ false
IsSilent x (pongs socket) = same socket x ≡ false
IsSilent x (closes socket) = same socket x ≡ false
IsSilent x (sweeps throws) = throws x ≡ false

abbrev pub sweeps_in : List Event → ℕ
sweeps_in [] = 0
sweeps_in (tracks _ _ ∷ events) = sweeps_in events
sweeps_in (pongs _ ∷ events) = sweeps_in events
sweeps_in (closes _ ∷ events) = sweeps_in events
sweeps_in (sweeps _ ∷ events) = sweeps_in events + 1

track-IsDistinct :
    (enabled : Bool) (socket : String) (session : Session) (tracked : Tracked)
    → Dict.IsDistinct tracked
    → Dict.IsDistinct (track enabled socket session tracked)
unfolding track
track-IsDistinct true socket session tracked d = Dict.put-IsDistinct socket _ tracked d
track-IsDistinct false socket session tracked d = d

pong-IsDistinct :
    (socket : String) (tracked : Tracked)
    → Dict.IsDistinct tracked
    → Dict.IsDistinct (pong socket tracked)
unfolding pong
pong-IsDistinct socket tracked d = elim (Option-cases (Dict.get socket tracked)) [
  | inl e ↦ rw (pong, e) d
  | inr (entry, e) ↦ rw (pong, e) (Dict.put-IsDistinct socket _ tracked d)
]

-- What other sockets report leaves this one alone.
missed-track :
    (enabled : Bool) (x socket : String) (session : Session) (tracked : Tracked)
    → same socket x ≡ false
    → missed x (track enabled socket session tracked) ≡ missed x tracked
unfolding track
missed-track enabled x socket session tracked other =
    ground
      (arith, other, Dict.get-put socket x (record { session = session; missed_pongs = 0 }) tracked)

missed-pong :
    (x socket : String) (tracked : Tracked)
    → same socket x ≡ false
    → missed x (pong socket tracked) ≡ missed x tracked
unfolding pong
missed-pong x socket tracked other = elim (Option-cases (Dict.get socket tracked)) [
  | inl e ↦ ground (arith, e)
  | inr (entry, e) ↦
      ground (arith, e, other, Dict.get-put socket x (record entry { missed_pongs = 0 }) tracked)
]

missed-close :
    (x socket : String) (tracked : Tracked)
    → same socket x ≡ false
    → missed x (close socket tracked) ≡ missed x tracked
unfolding close
missed-close x socket tracked other = ground (arith, other, Dict.get-remove socket x tracked)

-- What a run leaves of a socket that is not tracked, or has missed `n` pongs at its start.
abbrev pub missed_after : Option ℕ → ℕ → Option ℕ
missed_after none k = none
missed_after (some n) k = if ltb (n + k) 3 then some (n + k) else none

abbrev pub falls : Option ℕ → ℕ → Bool
falls none k = false
falls (some n) k = leb 3 (n + k)

silent_run :
    (enabled : Bool) (x : String) (start : Option ℕ) (events : List Event) (tracked : Tracked)
    → Dict.IsDistinct tracked
    → All (IsSilent x) events
    → missed x tracked ≡ start
    → missed_after start 0 ≡ start
    → let (tracked', terminated) = run enabled events tracked in
      (missed x tracked' ≡ missed_after start (sweeps_in events))
      × (Sets.contains x terminated ≡ falls start (sweeps_in events))
unfolding run Sets.contains
silent_run enabled x none [] tracked d quiet h low = (h, refl)
silent_run enabled x (some n) [] tracked d quiet h low =
    (ground (arith, h, low), ground (arith, low))
silent_run enabled x start (tracks socket session ∷ events) tracked d (other, quiet) h low =
    silent_run enabled x start events (track enabled socket session tracked)
      (track-IsDistinct enabled socket session tracked d) quiet
      (missed-track enabled x socket session tracked other ∙ h) low
silent_run enabled x start (pongs socket ∷ events) tracked d (other, quiet) h low =
    silent_run enabled x start events (pong socket tracked) (pong-IsDistinct socket tracked d) quiet
      (missed-pong x socket tracked other ∙ h) low
silent_run enabled x start (closes socket ∷ events) tracked d (other, quiet) h low =
    silent_run enabled x start events (close socket tracked)
      (Dict.remove-IsDistinct socket tracked d) quiet (missed-close x socket tracked other ∙ h) low
silent_run enabled x none (sweeps throws ∷ events) tracked d (sound, quiet) h low =
    let swept = sweep_now throws tracked in
    let (gone, spared) = missed-sweep_now-none throws x tracked (ground (arith, h)) in
    let (still, told) =
      silent_run enabled x none events swept.tracked (sweep_now-IsDistinct throws tracked d) quiet
        (ground (arith, gone)) refl in
    let both = Sets.contains-append x swept.terminated (run enabled events swept.tracked).1 in
    (still, ground (arith, both, spared, told))
silent_run enabled x (some n) (sweeps throws ∷ events) tracked d (sound, quiet) h low =
    let swept = sweep_now throws tracked in
    let (counted, ended) = missed-sweep_now throws x n tracked d sound h in
    let rest = λ (start : Option ℕ).
      silent_run enabled x start events swept.tracked (sweep_now-IsDistinct throws tracked d)
        quiet in
    let both = Sets.contains-append x swept.terminated (run enabled events swept.tracked).1 in
    elim (Bool-cases (leb 2 n)) [
      | inl e ↦
          let (still, told) = rest none (ground (arith, counted, e)) refl in
          (ground (arith, still, e), ground (arith, both, ended, told, e))
      | inr e ↦
          let (still, told) =
            rest (some (n + 1)) (ground (arith, counted, e)) (ground (arith, e)) in
          (ground (arith, still, e), ground (arith, both, ended, told, e))
    ]

-- A socket that is tracked from now on and of which nothing is heard, while the others report what
-- they like and terminate() of this one does not throw: up to the second sweep it is tracked, with
-- as many missed pongs as there were sweeps and not terminated; from the third sweep on it has been
-- terminated and is no longer tracked. No socket is tracked twice at the start.
pub silent_socket_falls :
    (x : String) (session : Session) (events : List Event) (tracked : Tracked)
    → Dict.IsDistinct tracked
    → All (IsSilent x) events
    → let (tracked', terminated) = run true (tracks x session ∷ events) tracked in
      let k = sweeps_in events in
      (missed x tracked' ≡ (if ltb k 3 then some k else none))
      × (Sets.contains x terminated ≡ leb 3 k)
unfolding run track
silent_socket_falls x session events tracked d quiet =
    let fresh : Entry = record { session = session; missed_pongs = 0 } in
    let (still, told) =
      silent_run true x (some 0) events (track true x session tracked)
        (track-IsDistinct true x session tracked d) quiet
        (ground (arith, Dict.get-put_self x fresh tracked)) refl in
    (ground (arith, still), ground (arith, told))

-- A pong starts the count again: after it, two sweeps do not terminate the socket, whatever it had
-- missed, if it is tracked.
pub pong_starts_again :
    (enabled : Bool) (x : String) (n : ℕ) (events : List Event) (tracked : Tracked)
    → Dict.IsDistinct tracked
    → missed x tracked ≡ some n
    → All (IsSilent x) events
    → sweeps_in events ≤ 2
    → let (tracked', terminated) = run enabled (pongs x ∷ events) tracked in
      (missed x tracked' ≡ some (sweeps_in events)) × (Sets.contains x terminated ≡ false)
unfolding run pong
pong_starts_again enabled x n events tracked d h quiet few =
    let back : missed x (pong x tracked) ≡ some 0 = elim (Option-cases (Dict.get x tracked)) [
      | inl e ↦ absurd (ground (arith, e, h))
      | inr (entry, e) ↦
          ground (arith, e, Dict.get-put_self x (record entry { missed_pongs = 0 }) tracked)
    ] in
    let (still, spared) =
      silent_run enabled x (some 0) events (pong x tracked) (pong-IsDistinct x tracked d) quiet back
        refl in
    (ground (arith, still, few), ground (arith, spared, few))
