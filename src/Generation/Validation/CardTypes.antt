-- ===== src/Generation/Validation/CardTypes.antt =====
-- The loop over the card types keeps each known type once (internal/generation/validation.go).
use kartochki_online_backend.Prelude.{
  ◌≡◌, refl, sym, ap, ◌∙◌, Bool, true, false, not, ◌&&◌, ◌||◌, inl, inr, Bool-cases, String, Option,
  none, some, List, [], ◌∷◌, ◌++◌, str_eq, eq_iff, if◌then◌else◌, map, arith, ltb, length, subst,
}
use mathlib.Core.List.{append-nil, append_assoc}
use kartochki_online_backend.Prelude.Text.{trim_space}
use kartochki_online_backend.Generation.Catalog.{generate_card_types, contains_id}
use kartochki_online_backend.Generation.Validation.{
  collect_card_types, card_types_of, extend, non_empty_list, is_empty,
}

-- All but the items equal to one.
abbrev without : String → List String → List String
without x [] = []
without x (y ∷ ys) = if str_eq x y then without x ys else y ∷ without x ys

-- The reference: each item at its first place.
abbrev pub dedup : List String → List String
dedup [] = []
dedup (x ∷ xs) = x ∷ without x (dedup xs)

abbrev is_known : String → Bool
is_known id = not (is_empty id) && contains_id generate_card_types id

abbrev pub all_known : List String → Bool
all_known [] = true
all_known (x ∷ xs) = is_known x && all_known xs

-- The items that are not in `seen`.
abbrev minus : List String → List String → List String
minus seen [] = []
minus seen (y ∷ ys) = if contains_id seen y then minus seen ys else y ∷ minus seen ys

contains_id-append :
    (seen : List String) (x y : String)
    → contains_id (seen ++ (x ∷ [])) y ≡ (contains_id seen y || str_eq x y)
unfolding contains_id
contains_id-append [] x y = ground arith
contains_id-append (s ∷ seen) x y = ground (arith, contains_id-append seen x y)

minus-append :
    (seen : List String) (x : String) (ys : List String)
    → minus (seen ++ (x ∷ [])) ys ≡ minus seen (without x ys)
minus-append seen x [] = refl
minus-append seen x (y ∷ ys) = ground (arith, contains_id-append seen x y, minus-append seen x ys)

minus-without :
    (seen : List String) (x : String) (ys : List String)
    → contains_id seen x ≡ true
    → minus seen (without x ys) ≡ minus seen ys
minus-without seen x [] h = refl
minus-without seen x (y ∷ ys) h = ground (arith, eq_iff x y, minus-without seen x ys h)

minus-nil : (ys : List String) → minus [] ys ≡ ys
unfolding contains_id
minus-nil [] = refl
minus-nil (y ∷ ys) = ap (λ t. y ∷ t) (minus-nil ys)

abbrev if_known : List String → List String → Option (List String)
if_known items kept = if all_known items then some kept else none

kept-step :
    (seen : List String) (x : String) (rest : List String)
    → extend seen x ++ minus (extend seen x) rest ≡ seen ++ minus seen (x ∷ without x rest)
kept-step seen x rest = elim (Bool-cases (contains_id seen x)) [
  | inl h ↦ rw h (ap (λ l. seen ++ l) (sym (minus-without seen x rest h)))
  | inr h ↦ rw h (
      append_assoc seen (x ∷ []) (minus (seen ++ (x ∷ [])) rest)
      ∙ ap (λ l. seen ++ (x ∷ l)) (minus-append seen x rest))
]

one_more :
    (known : Bool) (all : Bool) (kept : List String)
    → (if known then (if all then some kept else none) else none)
      ≡ (if known && all then some kept else none)
one_more true all kept = refl
one_more false all kept = refl

collect-dedup :
    (seen items : List String)
    → collect_card_types seen items
      ≡ if_known (map trim_space items) (seen ++ minus seen (dedup (map trim_space items)))
unfolding collect_card_types
collect-dedup seen [] = ap some (sym (append-nil seen))
collect-dedup seen (item ∷ items) =
    let x = trim_space item in
    let kept = seen ++ minus seen (x ∷ without x (dedup (map trim_space items))) in
    ap (λ r. if is_known x then r else none)
      (collect-dedup (extend seen x) items
        ∙ ap (if_known (map trim_space items)) (kept-step seen x (dedup (map trim_space items))))
    ∙ one_more (is_known x) (all_known (map trim_space items)) kept

push :
    (b : Bool) (kept : List String)
    → non_empty_list (if b then some kept else none)
      ≡ (if b then non_empty_list (some kept) else none)
push true kept = refl
push false kept = refl

-- The card types of a request are its trimmed items, each at its first place, if all of them are in
-- the catalog and there is one; else the request has none.
pub card_types_of-dedup :
    (items : List String)
    → card_types_of items ≡ (
        if all_known (map trim_space items)
        then non_empty_list (some (dedup (map trim_space items)))
        else none)
unfolding card_types_of
card_types_of-dedup items =
    let kept = dedup (map trim_space items) in
    ap non_empty_list
      (collect-dedup [] items ∙ ap (if_known (map trim_space items)) (minus-nil kept))
    ∙ push (all_known (map trim_space items)) kept

without-known :
    (x : String) (xs : List String) → all_known xs ≡ true → all_known (without x xs) ≡ true
without-known x [] h = refl
without-known x (y ∷ ys) h = ground (arith, without-known x ys)

dedup-known : (xs : List String) → all_known xs ≡ true → all_known (dedup xs) ≡ true
dedup-known [] h = refl
dedup-known (x ∷ xs) h = ground (arith, dedup-known xs, without-known x (dedup xs))

kept_if :
    (b : Bool) (kept types : List String)
    → (b ≡ true → all_known kept ≡ true)
    → ltb 0 (length kept) ≡ true
    → (if b then some kept else none) ≡ some types
    → (all_known types ≡ true) × (ltb 0 (length types) ≡ true)
kept_if true kept types known more e =
    let same : kept ≡ types = ground arith in
    subst (λ l. (all_known l ≡ true) × (ltb 0 (length l) ≡ true)) same (known refl, more)
kept_if false kept types known more e = ground arith

pub card_types_of-known :
    (items types : List String)
    → card_types_of items ≡ some types
    → (all_known types ≡ true) × (ltb 0 (length types) ≡ true)
card_types_of-known items types e =
    by_case (map trim_space items) (sym (card_types_of-dedup items) ∙ e)
  where
    by_case :
        (xs : List String)
        → (if all_known xs then non_empty_list (some (dedup xs)) else none) ≡ some types
        → (all_known types ≡ true) × (ltb 0 (length types) ≡ true)
    by_case [] h = ground arith
    by_case (x ∷ xs) h =
        kept_if (all_known (x ∷ xs)) (dedup (x ∷ xs)) types (dedup-known (x ∷ xs)) (ground arith) h
