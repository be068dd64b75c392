-- ===== src/Base/Decimal.antt =====
-- The decimal text of a number, as `str(n)` and an f-string write it.
use Prim.Native.Nat.{ℕ, zero, suc, ◌/◌, ◌%◌}
use Prim.Native.String.{String, ◌++◌ as ◌<>◌}
use agent_len.Base.Tests.{ltb, if◌then◌else◌}

-- The character of a text at a position.
abbrev char_at : ℕ → String → String
char_at n String.[] = ""
char_at zero (String.◌∷◌ c s) = String.◌∷◌ c String.[]
char_at (suc n) (String.◌∷◌ c s) = char_at n s

abbrev digit : ℕ → String
digit n = char_at n "0123456789"

abbrev digits : ℕ → ℕ → String
digits zero n = ""
digits (suc fuel) n =
    let rest = digits fuel (n / 10) in if ltb n 10 then digit n else rest <> digit (n % 10)

-- A number has fewer digits than one more than itself.
unfoldable pub decimal : ℕ → String
decimal n = digits (suc n) n
