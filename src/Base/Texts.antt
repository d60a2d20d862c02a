-- ===== src/Base/Texts.antt =====
-- Go's string functions that the program calls, on native texts. A text is walked by code points;
-- the characters that are searched for are ASCII, so byte and code point positions split it alike.
use Prim.Native.Char.{Char, code}
use Prim.Native.String.{String}
use mathlib.Core.Path.{◌≡◌, refl}
use mathlib.Core.Bool.{Bool, true, false, ◌&&◌, ◌||◌}
use mathlib.Core.Option.{Option, none, some}
use native.Mathlib.Omega.{arith}
use mathlib.Core.Logic.{◌≢◌, inl, inr}
use text.Mathlib.Text.{◌==◌ as str_eq}
use text.Mathlib.TextEquality.{eq_iff}
use text.Mathlib.TextLemmas.{tail-eq_of_cons-eq}
use azdo_kube_operator.Base.Tests.{Bool-cases, leb, ◌==◌, if◌then◌else◌}

-- `s + t`
unfoldable pub concat : String → String → String
concat String.[] t = t
concat (String.◌∷◌ c s) t = String.◌∷◌ c (concat s t)

-- `strings.HasPrefix(s, t)`
unfoldable pub has_prefix : String → String → Bool
has_prefix s String.[] = true
has_prefix String.[] (String.◌∷◌ d t) = false
has_prefix (String.◌∷◌ c s) (String.◌∷◌ d t) = (code c == code d) && has_prefix s t

pub has_prefix-concat : (s t : String) → has_prefix (concat s t) s ≡ true
unfolding has_prefix concat
has_prefix-concat String.[] t = refl
has_prefix-concat (String.◌∷◌ c s) t = ground (arith, has_prefix-concat s t)

-- `s[:strings.LastIndex(s, "-")]`, or `none` where the index is -1.
unfoldable pub before_last_dash : String → Option String
before_last_dash String.[] = none
before_last_dash (String.◌∷◌ c s) = elim (before_last_dash s) [
  | some t ↦ some (String.◌∷◌ c t)
  | none ↦ if code c == b'-' then some "" else none
]

unfoldable pub has_dash : String → Bool
has_dash String.[] = false
has_dash (String.◌∷◌ c s) = code c == b'-' || has_dash s

before_last_dash-no_dash : (s : String) → has_dash s ≡ false → before_last_dash s ≡ none
unfolding before_last_dash has_dash
before_last_dash-no_dash String.[] h = refl
before_last_dash-no_dash (String.◌∷◌ c s) h = ground (arith, before_last_dash-no_dash s)

-- The part after the last dash holds none.
pub before_last_dash-concat :
    (s t : String) → has_dash t ≡ false → before_last_dash (concat s (concat "-" t)) ≡ some s
unfolding before_last_dash concat
before_last_dash-concat String.[] t h = ground (arith, before_last_dash-no_dash t h)
before_last_dash-concat (String.◌∷◌ c s) t h = ground (arith, before_last_dash-concat s t h)

-- A character goes only if it is to be trimmed and nothing is left behind it.
unfoldable pub cons_unless : Bool → Char → String → String
cons_unless true c String.[] = ""
cons_unless false c String.[] = String.◌∷◌ c ""
cons_unless b c (String.◌∷◌ d t) = String.◌∷◌ c (String.◌∷◌ d t)

-- `strings.TrimRight(s, "/")`
unfoldable pub trim_right_slash : String → String
unfolding cons_unless
trim_right_slash String.[] = ""
trim_right_slash (String.◌∷◌ c s) = cons_unless (code c == b'/') c (trim_right_slash s)

-- `unicode.IsSpace`
unfoldable pub is_space : Char → Bool
is_space c =
    let n = code c in
    (leb 9 n && leb n 13)
    || n == 32
    || n == 0x85
    || n == 0xa0
    || n == 0x1680
    || (leb 0x2000 n && leb n 0x200a)
    || n == 0x2028
    || n == 0x2029
    || n == 0x202f
    || n == 0x205f
    || n == 0x3000

unfoldable pub trim_left_space : String → String
unfolding is_space
trim_left_space String.[] = ""
trim_left_space (String.◌∷◌ c s) =
    let rest = trim_left_space s in if is_space c then rest else String.◌∷◌ c s

unfoldable pub trim_right_space : String → String
unfolding is_space cons_unless
trim_right_space String.[] = ""
trim_right_space (String.◌∷◌ c s) = cons_unless (is_space c) c (trim_right_space s)

-- `strings.TrimSpace(s)`
unfoldable pub trim_space : String → String
unfolding trim_left_space trim_right_space
trim_space s = trim_right_space (trim_left_space s)

unfoldable pub ends_with_slash : String → Bool
ends_with_slash String.[] = false
ends_with_slash (String.◌∷◌ c String.[]) = code c == b'/'
ends_with_slash (String.◌∷◌ c (String.◌∷◌ d s)) = ends_with_slash (String.◌∷◌ d s)

ends_with_slash-cons_unless :
    (b : Bool) (c : Char) (s : String)
    → (code c == b'/') ≡ b
    → ends_with_slash s ≡ false
    → ends_with_slash (cons_unless b c s) ≡ false
unfolding ends_with_slash cons_unless
ends_with_slash-cons_unless true c String.[] e h = refl
ends_with_slash-cons_unless false c String.[] e h = e
ends_with_slash-cons_unless b c (String.◌∷◌ d t) e h = h

pub ends_with_slash-trim_right_slash : (s : String) → ends_with_slash (trim_right_slash s) ≡ false
unfolding ends_with_slash trim_right_slash
ends_with_slash-trim_right_slash String.[] = refl
ends_with_slash-trim_right_slash (String.◌∷◌ c s) =
    ends_with_slash-cons_unless (code c == b'/') c (trim_right_slash s) refl
      (ends_with_slash-trim_right_slash s)

pub str_ne : (s t : String) → s ≢ t → (str_eq s t) ≡ false
str_ne s t h = elim (Bool-cases (str_eq s t)) [ inl e ↦ absurd (h ((eq_iff s t).0 e)) | inr e ↦ e ]

-- A text that is made longer is another.
pub concat-ne : (s : String) (c : Char) (t : String) → concat s (String.◌∷◌ c t) ≢ s
unfolding concat
concat-ne String.[] c t e = cc
concat-ne (String.◌∷◌ d s) c t e = concat-ne s c t (tail-eq_of_cons-eq e)
