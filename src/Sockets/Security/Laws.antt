-- ===== src/Sockets/Security/Laws.antt =====
-- Who is let in, and what is counted: theorems on Sockets/Security.antt.
use bili_sync_play.Prelude.{
  All, Bool-cases, List, Option-cases, String, [], arith, false, if◌then◌else◌, inl, inr, leb, none,
  or_else, refl, same, some, true, ℕ, ◌&&◌, ◌++◌, ◌+◌, ◌<◌, ◌==◌, ◌↔◌, ◌∷◌, ◌≡◌, ◌≤◌,
}
use bili_sync_play.Prelude.Dict
use bili_sync_play.Prelude.Dict.{Dict, put}
use bili_sync_play.Prelude.Sets
use bili_sync_play.RateLimit.{WindowCounter, consume_fixed_window}
use bili_sync_play.Sockets.Security.{
  AttemptWindowEntry, Config, Platform, Policy, Request, accepted, attempt_window_ttl_ms,
  connections_of, evaluate_upgrade, get_attempt_window, get_remote_address, last_untrusted,
  origin_refusal, store_counter, sweep_attempt_windows, window_minute_ms,
}

last_untrusted-none :
    (trusted suffix : List String)
    → All (λ a. Sets.contains a trusted ≡ true) suffix
    → last_untrusted trusted suffix ≡ none
unfolding last_untrusted
last_untrusted-none trusted [] h = refl
last_untrusted-none trusted (x ∷ xs) (here, h) =
    ground (arith, last_untrusted-none trusted xs h, here)

-- The address that a forwarded chain yields is the last one that is no trusted proxy: what stands
-- before it, which a client may write as it likes, does not count.
pub last_untrusted-ignores_prefix :
    (trusted : List String) (client : String) (spoofed proxies : List String)
    → Sets.contains client trusted ≡ false
    → All (λ a. Sets.contains a trusted ≡ true) proxies
    → last_untrusted trusted (spoofed ++ (client ∷ proxies)) ≡ some client
unfolding last_untrusted
last_untrusted-ignores_prefix trusted client [] proxies out h =
    ground (arith, last_untrusted-none trusted proxies h, out)
last_untrusted-ignores_prefix trusted client (x ∷ xs) proxies out h =
    ground (arith, last_untrusted-ignores_prefix trusted client xs proxies out h)

get-sweep_none :
    (now : ℕ) (counts : Dict ℕ) (key : String) (windows : Dict AttemptWindowEntry)
    → Dict.get key windows ≡ none
    → Dict.get key (sweep_attempt_windows now counts windows) ≡ none
unfolding sweep_attempt_windows Dict.get
get-sweep_none now counts key [] h = refl
get-sweep_none now counts key ((k, entry) ∷ windows) h =
    ground (arith, h, get-sweep_none now counts key windows)

-- A sweep drops an address that was not seen for the retention and has no connection, and no other.
get-sweep :
    (now : ℕ) (counts : Dict ℕ) (key : String) (windows : Dict AttemptWindowEntry)
    (entry : AttemptWindowEntry)
    → Dict.IsDistinct windows
    → Dict.get key windows ≡ some entry
    → Dict.get key (sweep_attempt_windows now counts windows) ≡ (
        if leb (entry.last_seen_at + attempt_window_ttl_ms) now && connections_of key counts == 0
        then none
        else some entry)
unfolding sweep_attempt_windows Dict.get
get-sweep now counts key [] entry d h = absurd (ground (arith, h))
get-sweep now counts key ((k, e) ∷ windows) entry d h = elim (Bool-cases (same k key)) [
  | inl s ↦
      let here : k ≡ key = ground (arith, s) in
      let e' : e ≡ entry = ground (arith, h, s) in
      let gone = get-sweep_none now counts key windows (ground (arith, d.0, here)) in
      ground (arith, s, here, e', gone)
  | inr s ↦
      let rest = get-sweep now counts key windows entry d.1 (ground (arith, h, s)) in
      ground (arith, s, rest)
]

-- Dropping an attempt window changes no verdict: an attempt from any address, at the time of the
-- sweep or later, is counted and judged as it would be had the sweep not run, if the addresses are
-- distinct and the address was seen no earlier than its window began.
pub sweep_is_unobservable :
    (t now limit : ℕ) (counts : Dict ℕ) (key : String) (windows : Dict AttemptWindowEntry)
    → t ≤ now
    → Dict.IsDistinct windows
    → ((entry : AttemptWindowEntry)
        → Dict.get key windows ≡ some entry
        → entry.counter.window_start ≤ entry.last_seen_at)
    → consume_fixed_window
        (get_attempt_window key now (sweep_attempt_windows t counts windows)).counter
        limit
        window_minute_ms
        now
      ≡ consume_fixed_window (get_attempt_window key now windows).counter limit window_minute_ms now
unfolding consume_fixed_window get_attempt_window
sweep_is_unobservable t now limit counts key windows order d seen =
    elim (Option-cases (Dict.get key windows)) [
      | inl e ↦ ground (arith, e, get-sweep_none t counts key windows e)
      | inr (entry, e) ↦
          ground (arith, order, e, seen entry e, get-sweep t counts key windows entry d e)
    ]

get_attempt_window-now :
    (key : String) (now : ℕ) (windows : Dict AttemptWindowEntry)
    → (get_attempt_window key now windows).last_seen_at ≡ now
unfolding get_attempt_window
get_attempt_window-now key now windows = elim (Option-cases (Dict.get key windows)) [
  | inl e ↦ ground (arith, e)
  | inr (entry, e) ↦ ground (arith, e)
]

get-store_counter :
    (key : String) (counter : WindowCounter) (windows : Dict AttemptWindowEntry)
    (entry : AttemptWindowEntry)
    → Dict.get key windows ≡ some entry
    → Dict.get key (store_counter key counter windows) ≡ some (record entry { counter = counter })
unfolding store_counter
get-store_counter key counter windows entry e =
    ground (arith, e, Dict.get-put_self key (record entry { counter = counter }) windows)

-- An attempt is counted, in the window of its address, before anything else is looked at and
-- whatever the answer is; the sweep of that evaluation does not lose it. It is let in exactly if the
-- window had room, the origin is allowed, and the address has fewer connections than the limit.
pub evaluate_upgrade-counts :
    (p : Platform) (config : Config) (now : ℕ) (request : Request) (policy : Policy)
    → Dict.IsDistinct policy.ip_attempt_windows
    → let (policy', decision) = evaluate_upgrade p config now request policy in
      let address = get_remote_address p config request in
      let key = or_else address "unknown" in
      let (counter, admitted) =
        consume_fixed_window
          (get_attempt_window key now policy.ip_attempt_windows).counter
          config.connection_attempts_per_minute
          window_minute_ms
          now in
      (Dict.get key policy'.ip_attempt_windows
        ≡ some (record { counter = counter; last_seen_at = now }))
      × ((decision ≡ accepted (record { remote_address = address; origin = request.origin })) ↔ (
          (admitted ≡ true)
          × (origin_refusal p config request.origin ≡ none)
          × (connections_of key policy.ip_connection_counts < config.max_connections_per_ip)))
unfolding evaluate_upgrade
evaluate_upgrade-counts p config now request policy d =
    let key = or_else (get_remote_address p config request) "unknown" in
    let entry = get_attempt_window key now policy.ip_attempt_windows in
    let touched = Dict.put key entry policy.ip_attempt_windows in
    let d' = Dict.put-IsDistinct key entry policy.ip_attempt_windows d in
    let counter =
      (consume_fixed_window entry.counter config.connection_attempts_per_minute window_minute_ms
        now).0 in
    let put = Dict.get-put_self key entry policy.ip_attempt_windows in
    let seen = get_attempt_window-now key now policy.ip_attempt_windows in
    let swept = sweep_attempt_windows now policy.ip_connection_counts touched in
    let kept : Dict.get key swept ≡ some entry =
      ground (arith, seen, get-sweep now policy.ip_connection_counts key touched entry d' put) in
    let untouched = get-store_counter key counter touched entry put in
    let spared = get-store_counter key counter swept entry kept in
    (ground (arith, seen, untouched, spared), (ground arith, ground arith))
