-- ===== src/Sockets/Security.antt =====
-- server/src/security.ts, createSecurityPolicy. What the platform's text functions, isIP, the
-- pattern of mapped IPv4 addresses and the URL parser behind isBareMozExtensionOrigin answer is a
-- parameter.
use bili_sync_play.Prelude.{
  Bool, List, Option, String, [], any, if◌then◌else◌, is_nil, is_some, leb, map, none, not, or_else,
  same, some, truthy, ℕ, ◌%◌, ◌&&◌, ◌*◌, ◌+◌, ◌-◌, ◌==◌, ◌||◌, ◌∷◌,
}
use bili_sync_play.Prelude.Dict
use bili_sync_play.Prelude.Dict.{Dict}
use bili_sync_play.Prelude.Sets
use bili_sync_play.RateLimit.{WindowCounter, consume_fixed_window, create_window_counter}
pub mod Laws
pub mod Connections

pub record Platform : Type 0 where
  pub trim : String → String
  pub split_commas : String → List String
  pub between_brackets : String → Option String
  pub is_ip : String → ℕ
  pub mapped_ipv4 : String → Option String
  pub is_bare_moz_extension_origin : String → Bool

-- `trusted` is the set of the normalised trusted proxies.
pub record Config : Type 0 where
  pub connection_attempts_per_minute : ℕ
  pub max_connections_per_ip : ℕ
  pub allowed_origins : List String
  pub allow_missing_origin_in_dev : Bool
  pub allow_any_firefox_extension_origin : Bool
  pub trusted : List String

pub record Request : Type 0 where
  pub socket_remote_address : Option String
  pub forwarded : Option String
  pub origin : Option String

pub record RequestContext : Type 0 where
  pub remote_address : Option String
  pub origin : Option String

pub data UpgradeDecision : Type 0 where
  accepted : RequestContext → UpgradeDecision
  refused : ℕ → RequestContext → String → UpgradeDecision

pub record AttemptWindowEntry : Type 0 where
  pub counter : WindowCounter
  pub last_seen_at : ℕ

pub record Policy : Type 0 where
  pub ip_attempt_windows : Dict AttemptWindowEntry
  pub ip_connection_counts : Dict ℕ
  pub evaluate_count : ℕ

abbrev pub window_minute_ms : ℕ
window_minute_ms = 60000

abbrev pub attempt_window_ttl_ms : ℕ
attempt_window_ttl_ms = 10 * window_minute_ms

abbrev pub attempt_window_sweep_interval : ℕ
attempt_window_sweep_interval = 64

unfoldable pub normalize_ip_address : Platform → String → Option String
normalize_ip_address p value = elim (truthy (some (p.trim value))) [
  | none ↦ none
  | some trimmed ↦
      let unwrapped = or_else (p.between_brackets trimmed) trimmed in
      if p.is_ip unwrapped == 0 then none else elim (p.mapped_ipv4 unwrapped) [
        | none ↦ some unwrapped
        | some v4 ↦ if p.is_ip v4 == 4 then some v4 else some unwrapped
      ]
]

unfoldable pub normalize_all : Platform → List String → Option (List String)
unfolding normalize_ip_address
normalize_all p [] = some []
normalize_all p (part ∷ parts) =
    let rest = normalize_all p parts in
    elim (normalize_ip_address p part) [
      | none ↦ none
      | some address ↦ elim rest [ none ↦ none | some addresses ↦ some (address ∷ addresses) ]
    ]

unfoldable pub parse_forwarded_chain : Platform → String → Option (List String)
unfolding normalize_all
parse_forwarded_chain p forwarded =
    let parts = map p.trim (p.split_commas forwarded) in
    if is_nil parts || any (λ part. same part "") parts then none else normalize_all p parts

-- The loop from the last index down: the first address that is no trusted proxy.
unfoldable pub last_untrusted : List String → List String → Option String
last_untrusted trusted [] = none
last_untrusted trusted (candidate ∷ chain) = elim (last_untrusted trusted chain) [
  | some address ↦ some address
  | none ↦ if Sets.contains candidate trusted then none else some candidate
]

unfoldable pub get_trusted_forwarded_address : Platform → Config → String → Option String
unfolding parse_forwarded_chain last_untrusted
get_trusted_forwarded_address p config forwarded = elim (parse_forwarded_chain p forwarded) [
  | none ↦ none
  | some chain ↦ last_untrusted config.trusted chain
]

unfoldable pub get_remote_address : Platform → Config → Request → Option String
unfolding normalize_ip_address get_trusted_forwarded_address
get_remote_address p config request =
    elim (normalize_ip_address p (or_else request.socket_remote_address "")) [
      | none ↦ none
      | some socket_address ↦ elim request.forwarded [
        | none ↦ some socket_address
        | some forwarded ↦
            if Sets.contains socket_address config.trusted
              && is_some (truthy (some (p.trim forwarded)))
            then some (or_else (get_trusted_forwarded_address p config forwarded) socket_address)
            else some socket_address
      ]
    ]

-- The reason for which the origin is refused, if it is.
unfoldable pub origin_refusal : Platform → Config → Option String → Option String
origin_refusal p config origin = elim (truthy origin) [
  | none ↦ if config.allow_missing_origin_in_dev then none else some "origin_missing"
  | some o ↦
      if Sets.contains o config.allowed_origins
        || (config.allow_any_firefox_extension_origin && p.is_bare_moz_extension_origin o)
      then none
      else some "origin_not_allowed"
]

abbrev pub connections_of : String → Dict ℕ → ℕ
connections_of address counts = or_else (Dict.get address counts) 0

unfoldable pub increment_connection_count : Option String → Dict ℕ → Dict ℕ
increment_connection_count remote_address counts = elim (truthy remote_address) [
  | none ↦ counts
  | some address ↦ Dict.put address (connections_of address counts + 1) counts
]

unfoldable pub decrement_connection_count : Option String → Dict ℕ → Dict ℕ
decrement_connection_count remote_address counts = elim (truthy remote_address) [
  | none ↦ counts
  | some address ↦
      let next_value = or_else (Dict.get address counts) 1 - 1 in
      if next_value == 0 then Dict.remove address counts else Dict.put address next_value counts
]

-- The entry of an address, made or touched.
unfoldable pub get_attempt_window : String → ℕ → Dict AttemptWindowEntry → AttemptWindowEntry
get_attempt_window ip_key now windows = elim (Dict.get ip_key windows) [
  | none ↦ record { counter = create_window_counter now; last_seen_at = now }
  | some entry ↦ record entry { last_seen_at = now }
]

-- One pass over the entries: those that were not seen for the retention, and have no connection, go.
unfoldable pub sweep_attempt_windows :
    ℕ → Dict ℕ → Dict AttemptWindowEntry → Dict AttemptWindowEntry
sweep_attempt_windows now counts [] = []
sweep_attempt_windows now counts ((ip_key, entry) ∷ windows) =
    let rest = sweep_attempt_windows now counts windows in
    if leb (entry.last_seen_at + attempt_window_ttl_ms) now && connections_of ip_key counts == 0
    then rest
    else (ip_key, entry) ∷ rest

-- The counter that is used stands in the entry of the address, which a sweep may have dropped.
unfoldable pub store_counter :
    String → WindowCounter → Dict AttemptWindowEntry → Dict AttemptWindowEntry
store_counter ip_key counter windows = elim (Dict.get ip_key windows) [
  | none ↦ windows
  | some entry ↦ Dict.put ip_key (record entry { counter = counter }) windows
]

unfoldable pub evaluate_upgrade :
    Platform → Config → ℕ → Request → Policy → Policy × UpgradeDecision
evaluate_upgrade p config now request policy =
    let remote_address = get_remote_address p config request in
    let context : RequestContext = record {
      remote_address = remote_address;
      origin = request.origin;
    } in
    let ip_key = or_else remote_address "unknown" in
    let entry = get_attempt_window ip_key now policy.ip_attempt_windows in
    let touched = Dict.put ip_key entry policy.ip_attempt_windows in
    let evaluate_count = policy.evaluate_count + 1 in
    let kept =
      if evaluate_count % attempt_window_sweep_interval == 0
      then sweep_attempt_windows now policy.ip_connection_counts touched
      else touched in
    let (counter, admitted) =
      consume_fixed_window entry.counter config.connection_attempts_per_minute window_minute_ms
        now in
    let policy' = record policy {
      ip_attempt_windows = store_counter ip_key counter kept;
      evaluate_count = evaluate_count;
    } in
    if not admitted
    then (policy', refused 429 context "connection_attempt_rate_limited")
    else elim (origin_refusal p config request.origin) [
      | some reason ↦ (policy', refused 403 context reason)
      | none ↦
          if leb config.max_connections_per_ip (connections_of ip_key policy.ip_connection_counts)
          then (policy', refused 429 context "connection_count_limited")
          else (policy', accepted context)
    ]
