-- ===== src/Prelude/Decimal.antt =====
-- Texts as code points, and the decimal numbers of Go's strconv.
use Prim.Native.Char.{code}
use Prim.Native.Nat.{ℕ, ◌+◌, ◌-◌, ◌*◌, ◌^◌}
use Prim.Native.String.{String}
use mathlib.Core.Bool.{◌&&◌}
use mathlib.Core.Option.{Option, none, some}
use mathlib.Core.List.{List, [], ◌∷◌}
use kruise.Prelude.Tests.{ltb, leb, ◌==◌, if◌then◌else◌}
use kruise.Prelude.Int.{ℤ, pos, sub_ℕ}

abbrev pub codes : String → List ℕ
codes String.[] = []
codes (String.◌∷◌ c s) = code c ∷ codes s

unfoldable pub digits : List ℕ → ℕ → Option ℕ
digits [] acc = some acc
digits (c ∷ cs) acc =
    let rest = digits cs (acc * 10 + (c - b'0')) in if leb b'0' c && leb c b'9' then rest else none

-- One digit or more.
unfoldable pub natural : List ℕ → Option ℕ
unfolding digits
natural [] = none
natural (c ∷ cs) = digits (c ∷ cs) 0

unfoldable pub below : ℕ → Option ℕ → Option ℕ
below limit none = none
below limit (some n) = if ltb n limit then some n else none

-- `strconv.ParseUint(s, 10, 64)`: the empty text, another character or an overflow is an error.
unfoldable pub parse_uint : String → Option ℕ
unfolding natural below
parse_uint s = below (2 ^ 64) (natural (codes s))

negated : Option ℕ → Option ℤ
negated none = none
negated (some n) = some (sub_ℕ 0 n)

positive : Option ℕ → Option ℤ
positive none = none
positive (some n) = some (pos n)

signed : List ℕ → Option ℤ
signed [] = none
signed (c ∷ cs) =
    if c == b'-'
    then negated (below (2 ^ 31 + 1) (natural cs))
    else if c == b'+'
    then positive (below (2 ^ 31) (natural cs))
    else positive (below (2 ^ 31) (natural (c ∷ cs)))

-- `strconv.ParseInt(s, 10, 32)`: a sign may stand in front.
unfoldable pub parse_int32 : String → Option ℤ
unfolding signed natural below negated positive
parse_int32 s = signed (codes s)
