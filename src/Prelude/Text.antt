-- ===== src/Prelude/Text.antt =====
-- The functions of Go's package `strings` that the services use, on texts as sequences of code
-- points. (JSON input and database text are valid UTF-8, so no invalid bytes have to be kept.)
use Prim.Native.Nat.{ℕ, ◌+◌, ◌≤◌}
use Prim.Native.Char.{Char, code}
use Prim.Native.String.{String}
use mathlib.Core.Bool.{Bool, true, false, ◌&&◌, ◌||◌}
use mathlib.Core.List.{List, [], ◌∷◌}
use mathlib.Core.Path.{◌≡◌, refl}
use native.Mathlib.Omega.{arith}
use kartochki_online_backend.Prelude.Lists.{All}
use kartochki_online_backend.Prelude.Tests.{leb, ltb, ◌==◌, if◌then◌else◌}

-- unicode.IsSpace
pub is_space : ℕ → Bool
is_space c =
    (leb 9 c && leb c 13)
    || ((c == 32)
        || ((c == 0x85)
            || ((c == 0xa0)
                || ((c == 0x1680)
                    || ((leb 0x2000 c && leb c 0x200a)
                        || ((c == 0x2028)
                            || ((c == 0x2029)
                                || ((c == 0x202f) || ((c == 0x205f) || (c == 0x3000))))))))))

pub is_empty : String → Bool
is_empty String.[] = true
is_empty (String.◌∷◌ c s) = false

pub trim_left : String → String
unfolding is_space
trim_left String.[] = String.[]
trim_left (String.◌∷◌ c s) = if is_space (code c) then trim_left s else String.◌∷◌ c s

-- Drops the spaces at the end: a character stays if it is no space or if something stays after it.
pub trim_right : String → String
unfolding is_space is_empty
trim_right String.[] = String.[]
trim_right (String.◌∷◌ c s) =
    let rest = trim_right s in
    if is_empty rest && is_space (code c) then String.[] else String.◌∷◌ c rest

-- strings.TrimSpace
unfoldable pub trim_space : String → String
unfolding trim_left trim_right
trim_space s = trim_left (trim_right s)

-- The bytes of a code point in UTF-8, and `len(s)`, which counts bytes.
abbrev pub rune_len : ℕ → ℕ
rune_len c = if ltb c 0x80 then 1 else if ltb c 0x800 then 2 else if ltb c 0x10000 then 3 else 4

unfoldable pub byte_len : String → ℕ
byte_len String.[] = 0
byte_len (String.◌∷◌ c s) = rune_len (code c) + byte_len s

-- The code points of a text.
abbrev pub codes : String → List ℕ
codes String.[] = []
codes (String.◌∷◌ c s) = code c ∷ codes s

-- strings.TrimSpace on a list of code points.
trim_codes_left : List ℕ → List ℕ
unfolding is_space
trim_codes_left [] = []
trim_codes_left (c ∷ s) = if is_space c then trim_codes_left s else c ∷ s

abbrev drop_last_space : ℕ → List ℕ → List ℕ
drop_last_space c [] = if is_space c then [] else c ∷ []
drop_last_space c (d ∷ s) = c ∷ d ∷ s

trim_codes_right : List ℕ → List ℕ
unfolding is_space
trim_codes_right [] = []
trim_codes_right (c ∷ s) = drop_last_space c (trim_codes_right s)

unfoldable pub trim_codes : List ℕ → List ℕ
unfolding trim_codes_left trim_codes_right
trim_codes s = trim_codes_left (trim_codes_right s)

-- Text without spaces is left as it is.
trim_codes_right-NoSpaces : (s : List ℕ) → All (λ c. is_space c ≡ false) s → trim_codes_right s ≡ s
unfolding trim_codes_right
trim_codes_right-NoSpaces [] h = refl
trim_codes_right-NoSpaces (c ∷ s) h = rw (trim_codes_right-NoSpaces s h.1) (keep s)
  where
    keep : (t : List ℕ) → drop_last_space c t ≡ c ∷ t
    keep [] = rw h.0
    keep (d ∷ t) = refl

pub trim_codes-NoSpaces : (s : List ℕ) → All (λ c. is_space c ≡ false) s → trim_codes s ≡ s
unfolding trim_codes
trim_codes-NoSpaces s h = rw (trim_codes_right-NoSpaces s h) (left s h)
  where
    left : (t : List ℕ) → All (λ c. is_space c ≡ false) t → trim_codes_left t ≡ t
    left [] k = refl
    left (c ∷ t) k = rw k.0

pub is_space-printable : (c : ℕ) → 33 ≤ c → c ≤ 127 → is_space c ≡ false
unfolding is_space
is_space-printable c h k = ground arith

unfoldable pub append : String → String → String
append String.[] t = t
append (String.◌∷◌ c s) t = String.◌∷◌ c (append s t)

unfoldable pub concat_all : List String → String
unfolding append
concat_all [] = String.[]
concat_all (s ∷ ss) = append s (concat_all ss)

unfoldable pub has_prefix : String → String → Bool
has_prefix s String.[] = true
has_prefix String.[] (String.◌∷◌ c t) = false
has_prefix (String.◌∷◌ d s) (String.◌∷◌ c t) = (code d == code c) && has_prefix s t

-- strings.Contains(s, t)
unfoldable pub contains : String → String → Bool
unfolding has_prefix
contains String.[] t = has_prefix String.[] t
contains (String.◌∷◌ c s) t = has_prefix (String.◌∷◌ c s) t || contains s t

abbrev if_replaced : Bool → Char → Char
if_replaced true c = "-"
if_replaced false c = c

-- Every code point that passes becomes a dash.
unfoldable pub to_dashes : (ℕ → Bool) → String → String
to_dashes test String.[] = String.[]
to_dashes test (String.◌∷◌ c s) = String.◌∷◌ (if_replaced (test (code c)) c) (to_dashes test s)
