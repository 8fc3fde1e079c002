-- ===== src/Prelude/Lists.antt =====
-- Lists measured by native numbers, predicates over lists, and the shape of the SQL statements:
-- the first row that passes a test, and an update of the rows that pass one.
use Prim.Native.Nat.{ℕ, zero, suc, ◌+◌, ◌*◌, ◌<◌}
use mathlib.Core.Path.{◌≡◌, refl, sym, subst}
use mathlib.Core.Logic.{inl, inr}
use mathlib.Core.Bool.{Bool, true, false}
use mathlib.Core.Option.{Option, none, some}
use mathlib.Core.List.{List, [], ◌∷◌, ◌++◌}
use native.Mathlib.Omega.{arith}
use kartochki_online_backend.Prelude.Tests.{if◌then◌else◌, Bool-cases}

abbrev pub All {ℓ κ} : {A : Type ℓ} → (A → Type κ) → List A → Type κ
All P [] = Unit
All P (x ∷ xs) = P x × All P xs

module _ {ℓ} {A : Type ℓ} where
  abbrev pub length : List A → ℕ
  length [] = 0
  length (x ∷ xs) = suc (length xs)

  abbrev pub take : ℕ → List A → List A
  take zero xs = []
  take (suc n) [] = []
  take (suc n) (x ∷ xs) = x ∷ take n xs

  -- `select … where test limit 1`
  abbrev pub first : (A → Bool) → List A → Option A
  first test [] = none
  first test (x ∷ xs) = if test x then some x else first test xs

  -- the rows of `select … where test`
  abbrev pub select : (A → Bool) → List A → List A
  select test [] = []
  select test (x ∷ xs) = if test x then x ∷ select test xs else select test xs

  -- `select count(*) … where test`, and the rows affected by an update
  abbrev pub count_where : (A → Bool) → List A → ℕ
  count_where test [] = 0
  count_where test (x ∷ xs) = if test x then suc (count_where test xs) else count_where test xs

  -- `update … set … where test`
  abbrev pub update_where : (A → Bool) → (A → A) → List A → List A
  update_where test set [] = []
  update_where test set (x ∷ xs) = (if test x then set x else x) ∷ update_where test set xs

  -- `delete from … where test`
  abbrev pub remove_where : (A → Bool) → List A → List A
  remove_where test [] = []
  remove_where test (x ∷ xs) = if test x then remove_where test xs else x ∷ remove_where test xs

  -- The sum of a column.
  abbrev pub sum_of : (A → ℕ) → List A → ℕ
  sum_of column [] = 0
  sum_of column (x ∷ xs) = column x + sum_of column xs

module _ {ℓ} {A : Type ℓ} where
  -- A row that the test selects, if one is counted.
  pub count_where-first :
      (test : A → Bool) (xs : List A) → first test xs ≡ none → count_where test xs ≡ 0
  count_where-first test [] h = refl
  count_where-first test (x ∷ xs) h = ground (arith, count_where-first test xs)

  pub first-passes :
      (test : A → Bool) (xs : List A) (y : A) → first test xs ≡ some y → test y ≡ true
  first-passes test [] y h = ground arith
  first-passes test (x ∷ xs) y h = ground (arith, first-passes test xs y)

  pub first-counted :
      (test : A → Bool) (xs : List A) (y : A) → first test xs ≡ some y → 0 < count_where test xs
  first-counted test [] y h = ground arith
  first-counted test (x ∷ xs) y h = ground (arith, first-counted test xs y)

  pub count_where-append :
      (test : A → Bool) (xs ys : List A)
      → count_where test (xs ++ ys) ≡ count_where test xs + count_where test ys
  count_where-append test [] ys = omega arith
  count_where-append test (x ∷ xs) ys = ground (arith, count_where-append test xs ys)

  -- An update of the selected row, when the new row counts.
  pub first-updated :
      (test counts : A → Bool) (set : A → A) (xs : List A) (y : A)
      → first test xs ≡ some y
      → counts (set y) ≡ true
      → 0 < count_where counts (update_where test set xs)
  first-updated test counts set [] y h c = ground arith
  first-updated test counts set (x ∷ xs) y h c = elim (Bool-cases (test x)) [
    | inl e ↦
        let same : x ≡ y = ground arith in
        let q : counts (set x) ≡ true = subst (λ z. counts (set z) ≡ true) (sym same) c in
        rw (e, q) (omega arith)
    | inr e ↦ let r = first-updated test counts set xs y (rw e at h) c in rw e (ground arith)
  ]

  pub counted-last :
      (counts : A → Bool) (xs : List A) (y : A)
      → counts y ≡ true
      → 0 < count_where counts (xs ++ (y ∷ []))
  counted-last counts xs y c =
      let e = count_where-append counts xs (y ∷ []) in rw (e, c) (omega arith)

  -- An update that changes the outcome of `counts` on no row.
  pub count_where-update_where :
      (counts test : A → Bool) (set : A → A) (xs : List A)
      → ((x : A) → test x ≡ true → counts (set x) ≡ counts x)
      → count_where counts (update_where test set xs) ≡ count_where counts xs
  count_where-update_where counts test set [] same = refl
  count_where-update_where counts test set (x ∷ xs) same = elim (Bool-cases (test x)) [
    | inl e ↦ rw (e, same x e, count_where-update_where counts test set xs same) refl
    | inr e ↦ rw (e, count_where-update_where counts test set xs same) refl
  ]

  -- An update whose test selects no row changes nothing.
  pub update_where_none :
      (test : A → Bool) (set : A → A) (xs : List A)
      → count_where test xs ≡ 0
      → update_where test set xs ≡ xs
  update_where_none test set [] h = refl
  update_where_none test set (x ∷ xs) h = ground (arith, update_where_none test set xs)

module _ {ℓ κ} {A : Type ℓ} (P : A → Type κ) where
  pub All-append : (xs ys : List A) → All P xs → All P ys → All P (xs ++ ys)
  All-append [] ys hx hy = hy
  All-append (x ∷ xs) ys hx hy = (hx.0, All-append xs ys hx.1 hy)

  -- What every row satisfies, the selected row does.
  pub All-first : (test : A → Bool) (xs : List A) (y : A) → All P xs → first test xs ≡ some y → P y
  All-first test [] y h e = cc
  All-first test (x ∷ xs) y h e = elim (Bool-cases (test x)) [
    | inl t ↦ let q : x ≡ y = ground arith in subst P q h.0
    | inr f ↦ All-first test xs y h.1 (rw f at e)
  ]

  -- An update keeps what its assignment keeps.
  pub All-update_where :
      (test : A → Bool) (set : A → A) (xs : List A)
      → ((x : A) → P x → P (set x))
      → All P xs
      → All P (update_where test set xs)
  All-update_where test set [] keep h = tt
  All-update_where test set (x ∷ xs) keep h =
      (subst-if (test x), All-update_where test set xs keep h.1)
    where
      subst-if : (b : Bool) → P (if b then set x else x)
      subst-if true = keep x h.0
      subst-if false = h.0

pub All-weaken {ℓ κ μ} :
    {A : Type ℓ} (P : A → Type κ) (Q : A → Type μ)
    → ((x : A) → P x → Q x)
    → (xs : List A) → All P xs
    → All Q xs
All-weaken P Q h [] p = tt
All-weaken P Q h (x ∷ xs) p = (h x p.0, All-weaken P Q h xs p.1)

-- An update that adds `extra` to a column of each selected row.
pub sum_of-update_where {ℓ} :
    {A : Type ℓ} (column : A → ℕ) (test : A → Bool) (set : A → A) (extra : ℕ)
    → ((x : A) → column (set x) ≡ column x + extra)
    → (xs : List A)
    → sum_of column (update_where test set xs) ≡ sum_of column xs + count_where test xs * extra
sum_of-update_where column test set extra adds [] = omega arith
sum_of-update_where column test set extra adds (x ∷ xs) =
    let rest = sum_of-update_where column test set extra adds xs in
    let here = adds x in
    elim (Bool-cases (test x)) [
      | inl e ↦ rw (e, rest, here) (ground arith)
      | inr e ↦ rw (e, rest) (ground arith)
    ]

abbrev pub item_at {ℓ} : {A : Type ℓ} → List A → ℕ → Option A
item_at [] i = none
item_at (x ∷ xs) zero = some x
item_at (x ∷ xs) (suc i) = item_at xs i

-- An update after which nothing counts.
pub count_where-cleared {ℓ} :
    {A : Type ℓ} (counts test : A → Bool) (set : A → A) (xs : List A)
    → ((x : A) → counts (if test x then set x else x) ≡ false)
    → count_where counts (update_where test set xs) ≡ 0
count_where-cleared counts test set [] none_left = refl
count_where-cleared counts test set (x ∷ xs) none_left =
    rw (none_left x) (count_where-cleared counts test set xs none_left)
