-- ===== src/Tests/Traffic.antt =====
-- Sockets, queues, invites and guards, at concrete inputs.
use bili_sync_play.Prelude.{
  List, [], arith, false, if◌then◌else◌, leb, none, or_else, refl, some, true, ◌<◌, ◌∷◌, ◌↔◌, ◌≡◌,
}
use bili_sync_play.Prelude.Tests.{text_discrete}
use bili_sync_play.Prelude.Dict
use bili_sync_play.Prelude.Sets
use bili_sync_play.RateLimit.{consume_fixed_window}
use bili_sync_play.Sockets.Heartbeat.{Event, run, sweeps, tracks}
use bili_sync_play.Sockets.Heartbeat.Laws.{missed, silent_socket_falls}
use bili_sync_play.Sockets.Security.{
  AttemptWindowEntry, Config, Platform, Policy, Request, accepted, connections_of, evaluate_upgrade,
  get_attempt_window, get_remote_address, origin_refusal, sweep_attempt_windows, window_minute_ms,
}
use bili_sync_play.Sockets.Security.Laws.{evaluate_upgrade-counts, sweep_is_unobservable}
use bili_sync_play.Queues.Limiter.Fair.{
  IsFair, Reaches, Reaches-IsFair, System, arrive, arrives, finish, finishes, here, onward, start,
}
use bili_sync_play.Queues.Durable.{World, failed, landed, run_with_retries}
use bili_sync_play.Queues.Durable as Writing
use bili_sync_play.Queues.Durable.Retries.{IsHonest, run_with_retries-IsHonest}
use bili_sync_play.Tests.Values.{session_of}

abbrev three_sweeps : List Event
three_sweeps = sweeps (λ _. false) ∷ sweeps (λ _. false) ∷ sweeps (λ _. false) ∷ []

silent_socket_falls_example :
    let (tracked', terminated) = run true (tracks "s" (session_of "a") ∷ three_sweeps) [] in
    (missed "s" tracked' ≡ none) × (Sets.contains "s" terminated ≡ true)
silent_socket_falls_example =
    silent_socket_falls "s" (session_of "a") three_sweeps [] tt (refl, (refl, (refl, tt)))

-- Texts are taken as they are, and every address is one of IPv4.
abbrev platform : Platform
platform = record {
  trim = λ s. s;
  split_commas = λ s. s ∷ [];
  between_brackets = λ _. none;
  is_ip = λ _. 4;
  mapped_ipv4 = λ _. none;
  is_bare_moz_extension_origin = λ _. false;
}

abbrev config : Config
config = record {
  connection_attempts_per_minute = 2;
  max_connections_per_ip = 3;
  allowed_origins = "https://www.bilibili.com" ∷ [];
  allow_missing_origin_in_dev = false;
  allow_any_firefox_extension_origin = false;
  trusted = [];
}

abbrev upgrade : Request
upgrade = record {
  socket_remote_address = some "1.2.3.4";
  forwarded = none;
  origin = some "https://www.bilibili.com";
}

abbrev seen : AttemptWindowEntry
seen = record { counter = record { window_start = 1000; count = 1 }; last_seen_at = 1500 }

abbrev policy : Policy
policy = record {
  ip_attempt_windows = ("1.2.3.4", seen) ∷ [];
  ip_connection_counts = ("1.2.3.4", 1) ∷ [];
  evaluate_count = 63;
}

evaluate_upgrade-counts_example :
    let (policy', decision) = evaluate_upgrade platform config 2000 upgrade policy in
    let address = get_remote_address platform config upgrade in
    let key = or_else address "unknown" in
    let (counter, admitted) =
      consume_fixed_window
        (get_attempt_window key 2000 policy.ip_attempt_windows).counter
        2
        window_minute_ms
        2000 in
    (Dict.get key policy'.ip_attempt_windows
      ≡ some (record { counter = counter; last_seen_at = 2000 }))
    × ((decision ≡ accepted (record { remote_address = address; origin = upgrade.origin })) ↔ (
        (admitted ≡ true)
        × (origin_refusal platform config upgrade.origin ≡ none)
        × (connections_of key policy.ip_connection_counts < 3)))
unfolding Dict.get
evaluate_upgrade-counts_example =
    evaluate_upgrade-counts platform config 2000 upgrade policy (refl, tt)

sweep_is_unobservable_example :
    consume_fixed_window
      (get_attempt_window "1.2.3.4" 700000
        (sweep_attempt_windows 650000 [] (("1.2.3.4", seen) ∷ []))).counter
      2
      window_minute_ms
      700000
    ≡ consume_fixed_window
        (get_attempt_window "1.2.3.4" 700000 (("1.2.3.4", seen) ∷ [])).counter
        2
        window_minute_ms
        700000
unfolding Dict.get text_discrete
sweep_is_unobservable_example =
    sweep_is_unobservable 650000 700000 2 [] "1.2.3.4" (("1.2.3.4", seen) ∷ []) (ground arith)
      (refl, tt) (λ entry e. ground (arith, e))

abbrev one_waits : System
one_waits = arrive 1 8 (arrive 1 7 start)

one_waits-Reaches : Reaches 1 one_waits
one_waits-Reaches = onward (onward here (arrives 7)) (arrives 8)

Reaches-IsFair_example : IsFair 1 (finish one_waits)
unfolding arrive
Reaches-IsFair_example =
    Reaches-IsFair 1 (finish one_waits) (onward one_waits-Reaches (finishes (ground arith)))

-- The first attempt fails and the second one lands.
abbrev world : World
world = record {
  answer = λ n. if leb n 1 then failed else landed;
  stopped_at_start = false;
  stopped_after = λ _. false;
  superseded_after = λ _. false;
  superseded_once_waited = λ _. false;
  stopped_once_waited = λ _. false;
}

abbrev writing : Writing.Options
writing = record { retries = 2; initial_retry_delay_ms = 100; max_retry_delay_ms = 5000 }

run_with_retries-IsHonest_example : IsHonest writing world 2 1 (run_with_retries writing world)
run_with_retries-IsHonest_example = run_with_retries-IsHonest writing world refl
