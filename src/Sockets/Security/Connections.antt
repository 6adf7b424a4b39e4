-- ===== src/Sockets/Security/Connections.antt =====
-- How many connections an address has: theorems on the counts of server/src/security.ts.
use bili_sync_play.Prelude.{
  List, Option, Option-cases, String, [], arith, if◌then◌else◌, inl, inr, none, or_else, refl,
  same_option, some, truthy, ℕ, ◌+◌, ◌-◌, ◌∷◌, ◌≡◌,
}
use bili_sync_play.Prelude.Dict
use bili_sync_play.Prelude.Dict.{Dict}
use bili_sync_play.Sockets.Security.{
  connections_of, decrement_connection_count, increment_connection_count,
}

connections-increment :
    (a : String) (o : Option String) (counts : Dict ℕ)
    → connections_of a (increment_connection_count o counts)
      ≡ connections_of a counts + (if same_option (truthy o) (some a) then 1 else 0)
unfolding increment_connection_count
connections-increment a o counts = elim (Option-cases (truthy o)) [
  | inl e ↦ ground (arith, e)
  | inr (address, e) ↦
      ground (arith, e, Dict.get-put address a (connections_of address counts + 1) counts)
]

connections-decrement :
    (a : String) (o : Option String) (counts : Dict ℕ)
    → connections_of a (decrement_connection_count o counts)
      ≡ connections_of a counts - (if same_option (truthy o) (some a) then 1 else 0)
unfolding decrement_connection_count
connections-decrement a o counts = elim (Option-cases (truthy o)) [
  | inl e ↦ ground (arith, e)
  | inr (address, e) ↦
      let next_value = or_else (Dict.get address counts) 1 - 1 in
      ground (arith, e, Dict.get-put address a next_value counts, Dict.get-remove address a counts)
]

-- Connections that come and go, with their address if it is known.
pub data Traffic : Type 0 where
  opens closes : Option String → Traffic

unfoldable pub count_traffic : List Traffic → Dict ℕ → Dict ℕ
count_traffic [] counts = counts
count_traffic (opens o ∷ rest) counts = count_traffic rest (increment_connection_count o counts)
count_traffic (closes o ∷ rest) counts = count_traffic rest (decrement_connection_count o counts)

-- The addresses of the open connections: a connection that closes takes one occurrence with it.
unfoldable pub remove_one : Option String → List (Option String) → List (Option String)
remove_one o [] = []
remove_one o (x ∷ xs) = if same_option x o then xs else x ∷ remove_one o xs

unfoldable pub still_open : List Traffic → List (Option String) → List (Option String)
unfolding remove_one
still_open [] live = live
still_open (opens o ∷ rest) live = still_open rest (o ∷ live)
still_open (closes o ∷ rest) live = still_open rest (remove_one o live)

unfoldable pub occurrences : Option String → List (Option String) → ℕ
occurrences o [] = 0
occurrences o (x ∷ xs) = occurrences o xs + (if same_option x o then 1 else 0)

occurrences-remove_one :
    (a o : Option String) (live : List (Option String))
    → occurrences a (remove_one o live) ≡ occurrences a live - (if same_option o a then 1 else 0)
unfolding occurrences remove_one
occurrences-remove_one a o [] = ground arith
occurrences-remove_one a o (x ∷ xs) = ground (arith, occurrences-remove_one a o xs)

same_option-truthy :
    (a : String) (o : Option String)
    → truthy (some a) ≡ some a
    → same_option (truthy o) (some a) ≡ same_option o (some a)
same_option-truthy a none h = refl
same_option-truthy a (some x) h = ground (arith, h)

counted_from :
    (a : String) (traffic : List Traffic) (counts : Dict ℕ) (live : List (Option String))
    → truthy (some a) ≡ some a
    → connections_of a counts ≡ occurrences (some a) live
    → connections_of a (count_traffic traffic counts)
      ≡ occurrences (some a) (still_open traffic live)
unfolding count_traffic still_open occurrences
counted_from a [] counts live named h = h
counted_from a (opens o ∷ rest) counts live named h =
    counted_from a rest (increment_connection_count o counts) (o ∷ live) named
      (ground (arith, h, connections-increment a o counts, same_option-truthy a o named))
counted_from a (closes o ∷ rest) counts live named h =
    counted_from a rest (decrement_connection_count o counts) (remove_one o live) named (
      ground (
        arith,
        h,
        connections-decrement a o counts,
        occurrences-remove_one (some a) o live,
        same_option-truthy a o named,
      ))

-- The count of an address that is not empty is the number of its connections that are open, after
-- any sequence of connections that open and close, also unknown ones and closes that come too often.
pub count_traffic-occurrences :
    (a : String) (traffic : List Traffic)
    → truthy (some a) ≡ some a
    → connections_of a (count_traffic traffic []) ≡ occurrences (some a) (still_open traffic [])
unfolding occurrences Dict.get
count_traffic-occurrences a traffic named = counted_from a traffic [] [] named refl
