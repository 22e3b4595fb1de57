-- ===== src/Base/Text.antt =====
-- Numbers and lists of texts printed as JavaScript's template literals print them.
use Prim.Native.Nat.{ℕ, zero, suc, ◌/◌, ◌%◌}
use Prim.Native.String.{String, ◌++◌ as str_append}
use mathlib.Core.List.{List, [], ◌∷◌}
use pqc_qkd_hybrid_network.Base.Tests.{ltb, ◌==◌, if◌then◌else◌}

-- A digit in decimal.
abbrev pub digit : ℕ → String
digit d =
    if d == 0
    then "0"
    else if d == 1
    then "1"
    else if d == 2
    then "2"
    else if d == 3
    then "3"
    else if d == 4
    then "4"
    else if d == 5
    then "5"
    else if d == 6
    then "6"
    else if d == 7
    then "7"
    else if d == 8
    then "8"
    else "9"

unfoldable pub decimal_from : ℕ → ℕ → String
decimal_from zero n = digit (n % 10)
decimal_from (suc fuel) n =
    let more = str_append (decimal_from fuel (n / 10)) (digit (n % 10)) in
    if ltb n 10 then digit n else more

-- `${n}` of a whole number; it has fewer digits than its value plus one.
unfoldable pub decimal : ℕ → String
unfolding decimal_from
decimal n = decimal_from n n

-- A template literal, from its parts.
unfoldable pub text : List String → String
text [] = ""
text (x ∷ xs) = str_append x (text xs)
