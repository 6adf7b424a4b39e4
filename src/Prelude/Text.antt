-- ===== src/Prelude/Text.antt =====
-- Template literals: texts put together, and numbers in decimal.
use Prim.Native.Nat.{ℕ, zero, suc, ◌+◌, ◌/◌, ◌%◌}
use Prim.Native.String.{String, ◌++◌ as text_append}
use mathlib.Core.List.{List, [], ◌∷◌}
use bili_sync_play.Prelude.Tests.{◌==◌, ltb, if◌then◌else◌}

unfoldable pub concat : List String → String
concat [] = ""
concat (s ∷ ss) = text_append s (concat ss)

digit : ℕ → String
digit d =
    if d == 0
    then "0"
    else if d == 1
    then "1"
    else if d == 2
    then "2"
    else if d == 3
    then "3"
    else if d == 4
    then "4"
    else if d == 5
    then "5"
    else if d == 6
    then "6"
    else if d == 7
    then "7"
    else if d == 8
    then "8"
    else "9"

-- `n + 1` rounds are enough for the digits of `n`.
decimal_in : ℕ → ℕ → String
unfolding digit
decimal_in zero n = ""
decimal_in (suc rounds) n =
    let front = decimal_in rounds (n / 10) in
    if ltb n 10 then digit n else text_append front (digit (n % 10))

unfoldable pub decimal : ℕ → String
unfolding decimal_in
decimal n = decimal_in (n + 1) n
