-- ===== src/Billing/Amount/RoundTrip.antt =====
-- What the provider is told to charge is what the webhook reads back.
use kartochki_online_backend.Prelude.{
  ℕ, zero, suc, ◌+◌, ◌-◌, ◌*◌, ◌/◌, ◌%◌, ◌^◌, ◌≤◌, ◌<◌, ◌≡◌, refl, ap, ◌≢◌, inl, inr, false, some,
  List, [], ◌∷◌, ◌++◌, ltb, arith, All, All-append, Bool-cases,
}
use kartochki_online_backend.Prelude.Text.{is_space, is_space-printable, trim_codes-NoSpaces}
use kartochki_online_backend.Billing.Amount.{
  split_on, all_zeros, digits_value, atoi, parse_parts, parse_rub_amount, decimal_fuel,
  format_amount,
}

-- The bytes of a decimal number, and at least one of them.
abbrev AllDigits : List ℕ → Type 0
AllDigits = All (λ c. (b'0' ≤ c) × (c ≤ b'9'))

decimal_fuel-AllDigits : (f n : ℕ) → n ≤ f → AllDigits (decimal_fuel f n)
unfolding decimal_fuel
decimal_fuel-AllDigits zero n h = omega arith
decimal_fuel-AllDigits (suc f) n h = elim (Bool-cases (ltb n 10)) [
  | inl small ↦ rw small (ground arith)
  | inr large ↦ rw large (
      All-append (λ c. (b'0' ≤ c) × (c ≤ b'9')) (decimal_fuel f (n / 10)) _
        (decimal_fuel-AllDigits f (n / 10) (ground arith)) (omega arith))
]

digits_value-append :
    (a c : ℕ) (s : List ℕ) (n : ℕ)
    → digits_value a s ≡ some n
    → b'0' ≤ c
    → c ≤ b'9'
    → digits_value a (s ++ (c ∷ [])) ≡ some (n * 10 + (c - b'0'))
unfolding digits_value
digits_value-append a c [] n h p q = ground arith
digits_value-append a c (d ∷ s) n h p q =
    ground (arith, digits_value-append (a * 10 + (d - b'0')) c s n)

digits_value-digit : (n : ℕ) → n ≤ 9 → digits_value 0 ((b'0' + n) ∷ []) ≡ some n
unfolding digits_value
digits_value-digit n h = ground arith

digits_value-decimal : (f n : ℕ) → n ≤ f → digits_value 0 (decimal_fuel f n) ≡ some n
unfolding decimal_fuel
digits_value-decimal zero n h = digits_value-digit n (omega arith)
digits_value-decimal (suc f) n h = elim (Bool-cases (ltb n 10)) [
  | inl small ↦ rw small (digits_value-digit n (ground arith))
  | inr large ↦
      rw
        (
          large,
          digits_value-append 0 (b'0' + n % 10) (decimal_fuel f (n / 10)) (n / 10)
              (digits_value-decimal f (n / 10) (ground arith)) (omega arith) (omega arith),
        )
        (ap some (omega arith))
]

-- A text of digits up to the first point.
split_on-digits :
    (s t : List ℕ) → AllDigits s → split_on b'.' (s ++ (b'.' ∷ t)) ≡ s ∷ split_on b'.' t
unfolding split_on
split_on-digits [] t h = refl
split_on-digits (c ∷ s) t h = ground (arith, split_on-digits s t h.1)

split_zeros : split_on b'.' (b'0' ∷ b'0' ∷ []) ≡ (b'0' ∷ b'0' ∷ []) ∷ []
unfolding split_on
split_zeros = refl

parse_parts-digits :
    (s : List ℕ) (n : ℕ)
    → AllDigits s
    → s ≢ []
    → n < 2 ^ 63
    → digits_value 0 s ≡ some n
    → parse_parts (s ∷ (b'0' ∷ b'0' ∷ []) ∷ []) ≡ some n
unfolding atoi all_zeros
parse_parts-digits [] n h ne b e = absurd (ne refl)
parse_parts-digits (c ∷ s) n h ne b e = ground arith

decimal_fuel-ne-nil : (f n : ℕ) → decimal_fuel f n ≢ []
unfolding decimal_fuel
decimal_fuel-ne-nil zero n = ground arith
decimal_fuel-ne-nil (suc f) n = elim (Bool-cases (ltb n 10)) [
  | inl small ↦ rw small (ground arith)
  | inr large ↦ rw large (append-ne-nil (decimal_fuel f (n / 10)) (b'0' + n % 10))
]
  where
    append-ne-nil : (s : List ℕ) (c : ℕ) → s ++ (c ∷ []) ≢ []
    append-ne-nil [] c = ground arith
    append-ne-nil (d ∷ s) c = ground arith

digits-NoSpaces : (s : List ℕ) → AllDigits s → All (λ c. is_space c ≡ false) s
digits-NoSpaces [] h = tt
digits-NoSpaces (c ∷ s) h =
    (is_space-printable c (omega arith) (omega arith), digits-NoSpaces s h.1)

-- The amount in rubles that the checkout formats for the provider is the amount that the webhook
-- reads from the provider's text, for every amount that an `int` holds.
pub parse_rub_amount-format_amount :
    (n : ℕ) → n < 2 ^ 63 → parse_rub_amount (format_amount n) ≡ some n
unfolding parse_rub_amount format_amount
parse_rub_amount-format_amount n h =
    let digits = decimal_fuel-AllDigits n n (omega arith) in
    rw
      (
        trim_codes-NoSpaces (decimal_fuel n n ++ (b'.' ∷ b'0' ∷ b'0' ∷ [])) (
            All-append (λ c. is_space c ≡ false) (decimal_fuel n n) _
              (digits-NoSpaces (decimal_fuel n n) digits) no_spaces),
        split_on-digits (decimal_fuel n n) (b'0' ∷ b'0' ∷ []) digits,
        split_zeros,
      )
      (parse_parts-digits (decimal_fuel n n) n digits (decimal_fuel-ne-nil n n) h
        (digits_value-decimal n n (omega arith)))
  where
    no_spaces : All (λ c. is_space c ≡ false) (b'.' ∷ b'0' ∷ b'0' ∷ [])
    no_spaces = (refl, (refl, (refl, tt)))
