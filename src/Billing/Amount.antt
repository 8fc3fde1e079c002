-- ===== src/Billing/Amount.antt =====
-- Amounts of money as text: `parseRubAmount` (internal/billing/webhook_payments.go) and the
-- provider's `formatAmount` (internal/platform/yookassa/yookassa.go). A text is its list of bytes.
pub mod RoundTrip
use kartochki_online_backend.Prelude.{
  ℕ, zero, suc, ◌+◌, ◌-◌, ◌*◌, ◌/◌, ◌%◌, ◌^◌, Bool, true, false, ◌&&◌, ◌||◌, Option, none, some,
  List, [], ◌∷◌, ◌++◌, ltb, leb, ◌==◌, if◌then◌else◌,
}
use kartochki_online_backend.Prelude.Text.{trim_codes}
use kartochki_online_backend.Prelude.Int.{ℤ, pos, negsuc}

abbrev pub is_digit : ℕ → Bool
is_digit c = leb b'0' c && leb c b'9'

abbrev extend_first : ℕ → List (List ℕ) → List (List ℕ)
extend_first c [] = (c ∷ []) ∷ []
extend_first c (p ∷ ps) = (c ∷ p) ∷ ps

-- strings.Split(s, sep) for a separator of one byte.
unfoldable pub split_on : ℕ → List ℕ → List (List ℕ)
split_on sep [] = [] ∷ []
split_on sep (c ∷ s) = if c == sep then [] ∷ split_on sep s else extend_first c (split_on sep s)

-- strings.TrimRight(s, "0") == ""
unfoldable pub all_zeros : List ℕ → Bool
all_zeros [] = true
all_zeros (c ∷ s) = (c == b'0') && all_zeros s

-- The value of a text of digits after the value `n`, if it has nothing else.
unfoldable pub digits_value : ℕ → List ℕ → Option ℕ
digits_value n [] = some n
digits_value n (c ∷ s) =
    let rest = digits_value (n * 10 + (c - b'0')) s in if is_digit c then rest else none

-- A number of digits, at least one.
abbrev pub unsigned_value : List ℕ → Option ℕ
unsigned_value [] = none
unsigned_value (c ∷ s) = digits_value 0 (c ∷ s)

abbrev positive_int : Option ℕ → Option ℤ
positive_int none = none
positive_int (some n) = if ltb n (2 ^ 63) then some (pos n) else none

abbrev negative_int : Option ℕ → Option ℤ
negative_int none = none
negative_int (some zero) = some (pos 0)
negative_int (some (suc n)) = if ltb n (2 ^ 63) then some (negsuc n) else none

-- strconv.Atoi: an optional sign, digits, and a value that an `int` holds.
unfoldable pub atoi : List ℕ → Option ℤ
unfolding digits_value
atoi [] = none
atoi (c ∷ s) =
    if c == b'-'
    then negative_int (unsigned_value s)
    else if c == b'+'
    then positive_int (unsigned_value s)
    else positive_int (unsigned_value (c ∷ s))

abbrev pub nonnegative : Option ℤ → Option ℕ
nonnegative none = none
nonnegative (some (pos n)) = some n
nonnegative (some (negsuc n)) = none

-- One part, or two with nothing but zeros in the second; the first is not empty.
abbrev pub parse_parts : List (List ℕ) → Option ℕ
parse_parts ((c ∷ whole) ∷ []) = nonnegative (atoi (c ∷ whole))
parse_parts ((c ∷ whole) ∷ fraction ∷ []) =
    if all_zeros fraction then nonnegative (atoi (c ∷ whole)) else none
parse_parts _ = none

-- parseRubAmount; `none` is its error.
unfoldable pub parse_rub_amount : List ℕ → Option ℕ
unfolding split_on all_zeros atoi trim_codes
parse_rub_amount value = parse_parts (split_on b'.' (trim_codes value))

-- The decimal digits of a number, as `%d` prints them.
decimal_fuel : ℕ → ℕ → List ℕ
decimal_fuel zero n = (b'0' + n) ∷ []
decimal_fuel (suc f) n =
    let rest = decimal_fuel f (n / 10) ++ ((b'0' + n % 10) ∷ []) in
    if ltb n 10 then (b'0' + n) ∷ [] else rest

-- A number has no more digits than its value.
unfoldable pub decimal : ℕ → List ℕ
unfolding decimal_fuel
decimal n = decimal_fuel n n

-- formatAmount
unfoldable pub format_amount : ℕ → List ℕ
unfolding decimal
format_amount rubles = decimal rubles ++ (b'.' ∷ b'0' ∷ b'0' ∷ [])
