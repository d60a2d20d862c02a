-- ===== src/Base/Numerals.antt =====
-- Go's `strconv.Atoi` and `strings.Contains`.
use Prim.Native.Nat.{ℕ, zero, suc, ◌+◌, ◌-◌, ◌*◌}
use Prim.Native.Char.{code}
use Prim.Native.String.{String}
use mathlib.Core.Bool.{Bool, ◌&&◌, ◌||◌}
use mathlib.Core.Option.{Option, none, some}
use azdo_kube_operator.Base.Tests.{ltb, leb, ◌==◌, if◌then◌else◌}
use azdo_kube_operator.Base.Ints.{ℤ, pos, negsuc}
use azdo_kube_operator.Base.Texts.{has_prefix}

-- The digits of `s` behind those that gave `acc`.
digits : ℕ → String → Option ℕ
digits acc String.[] = some acc
digits acc (String.◌∷◌ c s) =
    let rest = digits (acc * 10 + (code c - b'0')) s in
    if leb b'0' (code c) && leb (code c) b'9' then rest else none

-- No digit at all is an error.
unsigned : String → Option ℕ
unfolding digits
unsigned String.[] = none
unsigned (String.◌∷◌ c s) = digits 0 (String.◌∷◌ c s)

in_range : Option ℕ → Option ℤ
in_range none = none
in_range (some n) = if ltb n 9_223_372_036_854_775_808 then some (pos n) else none

negated : Option ℕ → Option ℤ
negated none = none
negated (some zero) = some (pos 0)
negated (some (suc n)) = if ltb n 9_223_372_036_854_775_808 then some (negsuc n) else none

unfoldable pub atoi : String → Option ℤ
unfolding unsigned in_range negated
atoi String.[] = none
atoi (String.◌∷◌ c s) =
    if code c == b'-'
    then negated (unsigned s)
    else if code c == b'+'
    then in_range (unsigned s)
    else in_range (unsigned (String.◌∷◌ c s))

unfoldable pub contains : String → String → Bool
unfolding has_prefix
contains String.[] t = has_prefix "" t
contains (String.◌∷◌ c s) t = has_prefix (String.◌∷◌ c s) t || contains s t
