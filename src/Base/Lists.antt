-- ===== src/Base/Lists.antt =====
-- Lists measured and indexed by native numbers, under the library's names.
use Prim.Native.Nat.{ℕ, zero, suc, ◌+◌, ◌≤◌, ◌<◌, min}
use mathlib.Core.Path.{◌≡◌, refl, sym, ap, subst}
use mathlib.Core.Logic.{◌≢◌, ◌⊎◌, inl, inr}
use mathlib.Core.List.{List, [], ◌∷◌, ◌++◌, map}
use mathlib.Core.Option.{Option, none, some, some-injective}
use native.Mathlib.Omega.{arith}

module _ {ℓ} {A : Type ℓ} where
  abbrev pub length : List A → ℕ
  length [] = 0
  length (x ∷ xs) = suc (length xs)

  abbrev pub get_elem? : List A → ℕ → Option A
  get_elem? [] i = none
  get_elem? (x ∷ xs) zero = some x
  get_elem? (x ∷ xs) (suc i) = get_elem? xs i

  -- A write out of bounds changes nothing.
  abbrev pub set : List A → ℕ → A → List A
  set [] i v = []
  set (x ∷ xs) zero v = v ∷ xs
  set (x ∷ xs) (suc i) v = x ∷ set xs i v

  abbrev pub take : ℕ → List A → List A
  take zero xs = []
  take (suc n) [] = []
  take (suc n) (x ∷ xs) = x ∷ take n xs

  abbrev pub replicate : ℕ → A → List A
  replicate zero a = []
  replicate (suc n) a = a ∷ replicate n a

-- The numbers `i`, `i + 1`, … of a loop of `n` rounds.
abbrev pub range' : ℕ → ℕ → List ℕ
range' i zero = []
range' i (suc n) = i ∷ range' (i + 1) n

-- No item is in the empty list.
pub data Empty {ℓ} : Type ℓ where

-- A predicate that holds of every item.
abbrev pub All {ℓ κ} : {A : Type ℓ} → (A → Type κ) → List A → Type κ
All P [] = Unit
All P (x ∷ xs) = P x × All P xs

module _ {ℓ} {A : Type ℓ} where
  pub length-append : (xs ys : List A) → length (xs ++ ys) ≡ length xs + length ys
  length-append [] ys = omega arith
  length-append (x ∷ xs) ys = omega (arith, length-append xs ys)

  pub length-set : (xs : List A) (i : ℕ) (v : A) → length (set xs i v) ≡ length xs
  length-set [] i v = refl
  length-set (x ∷ xs) zero v = refl
  length-set (x ∷ xs) (suc i) v = ap suc (length-set xs i v)

  pub length-take : (n : ℕ) (xs : List A) → length (take n xs) ≡ min n (length xs)
  length-take zero xs = omega arith
  length-take (suc n) [] = omega arith
  length-take (suc n) (x ∷ xs) = omega (arith, length-take n xs)

  pub length-replicate : (n : ℕ) (a : A) → length (replicate n a) ≡ n
  length-replicate zero a = refl
  length-replicate (suc n) a = ap suc (length-replicate n a)

  pub length-map {κ} : {B : Type κ} (xs : List A) (f : A → B) → length (map f xs) ≡ length xs
  length-map [] f = refl
  length-map (x ∷ xs) f = ap suc (length-map xs f)

  pub get_elem?-set_self :
      (xs : List A) (i : ℕ) (v : A) → i < length xs → get_elem? (set xs i v) i ≡ some v
  get_elem?-set_self [] i v h = elim h [ ]
  get_elem?-set_self (x ∷ xs) zero v h = refl
  get_elem?-set_self (x ∷ xs) (suc i) v h = get_elem?-set_self xs i v (omega arith)

  pub get_elem?-set_ne :
      (xs : List A) (i j : ℕ) (v : A) → i ≢ j → get_elem? (set xs i v) j ≡ get_elem? xs j
  get_elem?-set_ne [] i j v h = refl
  get_elem?-set_ne (x ∷ xs) zero zero v h = absurd (h refl)
  get_elem?-set_ne (x ∷ xs) zero (suc j) v h = refl
  get_elem?-set_ne (x ∷ xs) (suc i) zero v h = refl
  get_elem?-set_ne (x ∷ xs) (suc i) (suc j) v h = get_elem?-set_ne xs i j v (λ e. h (ap suc e))

  pub get_elem?-append_left :
      (xs ys : List A) (i : ℕ) → i < length xs → get_elem? (xs ++ ys) i ≡ get_elem? xs i
  get_elem?-append_left [] ys i h = elim h [ ]
  get_elem?-append_left (x ∷ xs) ys zero h = refl
  get_elem?-append_left (x ∷ xs) ys (suc i) h = get_elem?-append_left xs ys i (omega arith)

  pub get_elem?-append_right :
      (xs ys : List A) (i j : ℕ) → i ≡ length xs + j → get_elem? (xs ++ ys) i ≡ get_elem? ys j
  get_elem?-append_right [] ys i j h = let e : i ≡ j = omega arith in ap (get_elem? ys) e
  get_elem?-append_right (x ∷ xs) ys zero j h = absurd (omega arith)
  get_elem?-append_right (x ∷ xs) ys (suc i) j h = get_elem?-append_right xs ys i j (omega arith)

  pub get_elem?-lt : (xs : List A) (i : ℕ) {a : A} → get_elem? xs i ≡ some a → i < length xs
  get_elem?-lt [] i h = cc
  get_elem?-lt (x ∷ xs) zero h = omega arith
  get_elem?-lt (x ∷ xs) (suc i) h = omega (arith, get_elem?-lt xs i h)

  pub get_elem?-some : (xs : List A) (i : ℕ) → i < length xs → (a : A) × (get_elem? xs i ≡ some a)
  get_elem?-some [] i h = elim h [ ]
  get_elem?-some (x ∷ xs) zero h = (x, refl)
  get_elem?-some (x ∷ xs) (suc i) h = get_elem?-some xs i (omega arith)

  pub get_elem?-map {κ} :
      {B : Type κ} (f : A → B) (xs : List A) (i : ℕ) {a : A}
      → get_elem? xs i ≡ some a
      → get_elem? (map f xs) i ≡ some (f a)
  get_elem?-map f [] i h = cc
  get_elem?-map f (x ∷ xs) zero h = ground arith
  get_elem?-map f (x ∷ xs) (suc i) h = get_elem?-map f xs i h

  pub get_elem?-map_back {κ} :
      {B : Type κ} (f : A → B) (xs : List A) (i : ℕ) {b : B}
      → get_elem? (map f xs) i ≡ some b
      → (a : A) × (get_elem? xs i ≡ some a) × (b ≡ f a)
  get_elem?-map_back f [] i h = absurd (cc h)
  get_elem?-map_back f (x ∷ xs) zero h = (x, refl, sym (some-injective _ _ h))
  get_elem?-map_back f (x ∷ xs) (suc i) h = get_elem?-map_back f xs i h

  pub take-suc :
      (n : ℕ) (xs : List A) {a : A}
      → get_elem? xs n ≡ some a
      → take (suc n) xs ≡ take n xs ++ a ∷ []
  take-suc n [] h = cc
  take-suc zero (x ∷ xs) h = ground arith
  take-suc (suc n) (x ∷ xs) h = ap (λ t. x ∷ t) (take-suc n xs h)

  pub take-map {κ} :
      {B : Type κ} (f : A → B) (n : ℕ) (xs : List A) → take n (map f xs) ≡ map f (take n xs)
  take-map f zero xs = refl
  take-map f (suc n) [] = refl
  take-map f (suc n) (x ∷ xs) = ap (λ t. f x ∷ t) (take-map f n xs)

module _ {ℓ} {A : Type ℓ} where
  pub get_elem?-take :
      (n : ℕ) (xs : List A) (i : ℕ) → i < n → get_elem? (take n xs) i ≡ get_elem? xs i
  get_elem?-take zero xs i h = elim h [ ]
  get_elem?-take (suc n) [] i h = refl
  get_elem?-take (suc n) (x ∷ xs) zero h = refl
  get_elem?-take (suc n) (x ∷ xs) (suc i) h = get_elem?-take n xs i (omega arith)

  pub take-take : (m n : ℕ) (xs : List A) → m ≤ n → take m (take n xs) ≡ take m xs
  take-take zero n xs h = refl
  take-take (suc m) zero xs h = elim h [ ]
  take-take (suc m) (suc n) [] h = refl
  take-take (suc m) (suc n) (x ∷ xs) h = ap (λ t. x ∷ t) (take-take m n xs (omega arith))

module _ {ℓ} {A : Type ℓ} where
  pub set-set : (xs : List A) (k : ℕ) (a b : A) → set (set xs k a) k b ≡ set xs k b
  set-set [] k a b = refl
  set-set (x ∷ xs) zero a b = refl
  set-set (x ∷ xs) (suc k) a b = ap (λ t. x ∷ t) (set-set xs k a b)

  pub set-same : (xs : List A) (k : ℕ) (a : A) → get_elem? xs k ≡ some a → set xs k a ≡ xs
  set-same [] k a h = refl
  set-same (x ∷ xs) zero a h = ground arith
  set-same (x ∷ xs) (suc k) a h = ap (λ t. x ∷ t) (set-same xs k a h)

module _ {ℓ κ} {A : Type ℓ} (P : A → Type κ) where
  pub All-of_index : (xs : List A) → ((i : ℕ) (a : A) → get_elem? xs i ≡ some a → P a) → All P xs
  All-of_index [] h = tt
  All-of_index (x ∷ xs) h = (h 0 x refl, All-of_index xs (λ i a e. h (suc i) a e))

  pub All_index : (xs : List A) (i : ℕ) (a : A) → All P xs → get_elem? xs i ≡ some a → P a
  All_index [] i a h e = absurd (cc)
  All_index (x ∷ xs) zero a h e = subst P (some-injective x a e) h.0
  All_index (x ∷ xs) (suc i) a h e = All_index xs i a h.1 e

  pub All-append : (xs ys : List A) → All P xs → All P ys → All P (xs ++ ys)
  All-append [] ys h k = k
  All-append (x ∷ xs) ys h k = (h.0, All-append xs ys h.1 k)

-- Membership, as a sum that can be taken apart.
abbrev pub In {ℓ} : {A : Type ℓ} → A → List A → Type ℓ
In a [] = Empty
In a (x ∷ xs) = (a ≡ x) ⊎ In a xs

pub All-In {ℓ κ} : {A : Type ℓ} (P : A → Type κ) (xs : List A) (a : A) → All P xs → In a xs → P a
All-In P [] a h i = elim i [ ]
All-In P (x ∷ xs) a h (inl e) = subst P (sym e) h.0
All-In P (x ∷ xs) a h (inr i) = All-In P xs a h.1 i

pub In-All {ℓ κ} :
    {A : Type ℓ} (P : A → Type κ) (xs : List A) → ((a : A) → In a xs → P a) → All P xs
In-All P [] h = tt
In-All P (x ∷ xs) h = (h x (inl refl), In-All P xs (λ a i. h a (inr i)))

pub In-of_index {ℓ} : {A : Type ℓ} (xs : List A) (i : ℕ) (a : A) → get_elem? xs i ≡ some a → In a xs
In-of_index [] i a e = absurd (cc)
In-of_index (x ∷ xs) zero a e = inl (sym (some-injective x a e))
In-of_index (x ∷ xs) (suc i) a e = inr (In-of_index xs i a e)

pub In-append_left {ℓ} : {A : Type ℓ} (xs ys : List A) (a : A) → In a xs → In a (xs ++ ys)
In-append_left [] ys a i = elim i [ ]
In-append_left (x ∷ xs) ys a (inl e) = inl e
In-append_left (x ∷ xs) ys a (inr i) = inr (In-append_left xs ys a i)

pub In-append_right {ℓ} : {A : Type ℓ} (xs ys : List A) (a : A) → In a ys → In a (xs ++ ys)
In-append_right [] ys a i = i
In-append_right (x ∷ xs) ys a i = inr (In-append_right xs ys a i)

pub In-append {ℓ} : {A : Type ℓ} (xs ys : List A) (a : A) → In a (xs ++ ys) → In a xs ⊎ In a ys
In-append [] ys a i = inr i
In-append (x ∷ xs) ys a (inl e) = inl (inl e)
In-append (x ∷ xs) ys a (inr i) = elim (In-append xs ys a i) [ inl l ↦ inl (inr l) | inr r ↦ inr r ]

pub length-range' : (n i : ℕ) → length (range' i n) ≡ n
length-range' zero i = refl
length-range' (suc n) i = ap suc (length-range' n (i + 1))

pub get_elem?-range' : (n i j k : ℕ) → j < n → k ≡ i + j → get_elem? (range' i n) j ≡ some k
get_elem?-range' zero i j k h e = elim h [ ]
get_elem?-range' (suc n) i zero k h e = ap some (omega arith)
get_elem?-range' (suc n) i (suc j) k h e =
    get_elem?-range' n (i + 1) j k (omega arith) (omega arith)

module _ {ℓ} {A : Type ℓ} where
  -- An item of a list with one more at the end, or with one replaced.
  pub get_elem?-snoc :
      (xs : List A) (y : A) (i : ℕ) (a : A)
      → get_elem? (xs ++ y ∷ []) i ≡ some a
      → (get_elem? xs i ≡ some a) ⊎ ((i ≡ length xs) × (a ≡ y))
  get_elem?-snoc [] y zero a h = inr (refl, sym (some-injective y a h))
  get_elem?-snoc [] y (suc i) a h = absurd (cc h)
  get_elem?-snoc (x ∷ xs) y zero a h = inl h
  get_elem?-snoc (x ∷ xs) y (suc i) a h = elim (get_elem?-snoc xs y i a h) [
    | inl before ↦ inl before
    | inr (last, is) ↦ inr (ap suc last, is)
  ]

  pub get_elem?-set_cases :
      (xs : List A) (i j : ℕ) (v a : A)
      → get_elem? (set xs i v) j ≡ some a
      → ((j ≡ i) × (a ≡ v)) ⊎ ((i ≢ j) × (get_elem? xs j ≡ some a))
  get_elem?-set_cases [] i j v a h = absurd (cc h)
  get_elem?-set_cases (x ∷ xs) zero zero v a h = inl (refl, sym (some-injective v a h))
  get_elem?-set_cases (x ∷ xs) zero (suc j) v a h = inr (omega arith, h)
  get_elem?-set_cases (x ∷ xs) (suc i) zero v a h = inr (omega arith, h)
  get_elem?-set_cases (x ∷ xs) (suc i) (suc j) v a h = elim (get_elem?-set_cases xs i j v a h) [
    | inl (here, is) ↦ inl (ap suc here, is)
    | inr (ne, before) ↦ inr (omega arith, before)
  ]

  pub map-set {κ} :
      {B : Type κ} (f : A → B) (xs : List A) (i : ℕ) (v : A)
      → map f (set xs i v) ≡ set (map f xs) i (f v)
  map-set f [] i v = refl
  map-set f (x ∷ xs) zero v = refl
  map-set f (x ∷ xs) (suc i) v = ap (λ t. f x ∷ t) (map-set f xs i v)

  pub map-snoc {κ} :
      {B : Type κ} (f : A → B) (xs : List A) (y : A) → map f (xs ++ y ∷ []) ≡ map f xs ++ f y ∷ []
  map-snoc f [] y = refl
  map-snoc f (x ∷ xs) y = ap (λ t. f x ∷ t) (map-snoc f xs y)

module _ {ℓ} {A : Type ℓ} where
  -- An item of two lists put together is one of the first or of the second.
  pub get_elem?-append_cases :
      (xs ys : List A) (i : ℕ) (a : A)
      → get_elem? (xs ++ ys) i ≡ some a
      → (get_elem? xs i ≡ some a) ⊎ ((j : ℕ) × (get_elem? ys j ≡ some a))
  get_elem?-append_cases [] ys i a h = inr (i, h)
  get_elem?-append_cases (x ∷ xs) ys zero a h = inl h
  get_elem?-append_cases (x ∷ xs) ys (suc i) a h = get_elem?-append_cases xs ys i a h
