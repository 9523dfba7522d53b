-- ===== src/Assoc.antt =====
-- The `HashMap`s that are keyed by text, as lists of their entries in the order of iteration.
pub mod Distinct
use trust_meta.Base.{
  Bool, true, false, not, List, [], ◌∷◌, Option, none, some, if◌then◌else◌, Bytes, bytes_eq,
  bytes_eq_refl, bytes_eq_iff, ◌≡◌, refl, sym, ◌∙◌, inl, inr, Bool-cases,
}

abbrev pub Assoc {ℓ} : Type ℓ → Type ℓ
Assoc A = List (Bytes × A)

unfoldable pub get {ℓ} : {A : Type ℓ} → Bytes → Assoc A → Option A
get key [] = none
get key ((k, a) ∷ rest) = if bytes_eq k key then some a else get key rest

-- `retain(|key, _| keep(key))`.
unfoldable pub retain {ℓ} : {A : Type ℓ} → (Bytes → Bool) → Assoc A → Assoc A
retain keep [] = []
retain keep ((k, a) ∷ rest) = let kept = retain keep rest in if keep k then (k, a) ∷ kept else kept

unfoldable pub remove {ℓ} : {A : Type ℓ} → Bytes → Assoc A → Assoc A
unfolding retain
remove key = retain (λ k. not (bytes_eq k key))

unfoldable pub insert {ℓ} : {A : Type ℓ} → Bytes → A → Assoc A → Assoc A
unfolding remove
insert key a entries = (key, a) ∷ remove key entries

-- A write through `get_mut`: a missing key is not added.
unfoldable pub replace {ℓ} : {A : Type ℓ} → Bytes → A → Assoc A → Assoc A
replace key a [] = []
replace key a ((k, b) ∷ rest) = (k, if bytes_eq k key then a else b) ∷ replace key a rest

pub differs_back : (k key : Bytes) → bytes_eq k key ≡ false → bytes_eq key k ≡ false
differs_back k key differs = elim (Bool-cases (bytes_eq key k)) [
  | inl same ↦ absurd (cc ((bytes_eq_iff key k).0 same, bytes_eq_refl k, differs))
  | inr other ↦ other
]

module _ {ℓ} {A : Type ℓ} where
  pub get-insert : (key : Bytes) (a : A) (m : Assoc A) → get key (insert key a m) ≡ some a
  unfolding get insert
  get-insert key a m = rw (bytes_eq_refl key) refl

  pub get-retain :
      (keep : Bytes → Bool) (key : Bytes) (m : Assoc A)
      → keep key ≡ true
      → get key (retain keep m) ≡ get key m
  unfolding get retain
  get-retain keep key [] kept = refl
  get-retain keep key ((k, a) ∷ rest) kept = elim (Bool-cases (bytes_eq k key)) [
    | inl same ↦
        let also : keep k ≡ true = rw ((bytes_eq_iff k key).0 same) kept in rw also (rw same refl)
    | inr other ↦ elim (Bool-cases (keep k)) [
      | inl also ↦ rw also (rw other (get-retain keep key rest kept))
      | inr gone ↦ rw gone (rw other (get-retain keep key rest kept))
    ]
  ]

  pub get-insert_other :
      (key other : Bytes) (a : A) (m : Assoc A)
      → bytes_eq key other ≡ false
      → get other (insert key a m) ≡ get other m
  unfolding get insert
  get-insert_other key other a m differs =
      rw differs
        (get-retain (λ k. not (bytes_eq k key)) other m (rw (differs_back key other differs) refl))

  pub get-retain_dropped :
      (keep : Bytes → Bool) (key : Bytes) (m : Assoc A)
      → keep key ≡ false
      → get key (retain keep m) ≡ none
  unfolding get retain
  get-retain_dropped keep key [] dropped = refl
  get-retain_dropped keep key ((k, a) ∷ rest) dropped = elim (Bool-cases (keep k)) [
    | inr gone ↦ rw gone (get-retain_dropped keep key rest dropped)
    | inl kept ↦ elim (Bool-cases (bytes_eq k key)) [
      | inl same ↦ absurd (cc ((bytes_eq_iff k key).0 same, kept, dropped))
      | inr other ↦ rw kept (rw other (get-retain_dropped keep key rest dropped))
    ]
  ]

  pub get-retain_before :
      (keep : Bytes → Bool) (key : Bytes) (m : Assoc A) (a : A)
      → get key (retain keep m) ≡ some a
      → get key m ≡ some a
  get-retain_before keep key m a at = elim (Bool-cases (keep key)) [
    | inl kept ↦ sym (get-retain keep key m kept) ∙ at
    | inr dropped ↦ absurd (cc (get-retain_dropped keep key m dropped, at))
  ]

  pub get-replace :
      (key : Bytes) (a b : A) (m : Assoc A)
      → get key m ≡ some b
      → get key (replace key a m) ≡ some a
  unfolding get replace
  get-replace key a b [] at = absurd (cc at)
  get-replace key a b ((k, c) ∷ rest) at = elim (Bool-cases (bytes_eq k key)) [
    | inl same ↦ rw same refl
    | inr other ↦ rw other (get-replace key a b rest (rw (other, get) at at))
  ]

  pub get-replace_other :
      (key other : Bytes) (a : A) (m : Assoc A)
      → bytes_eq key other ≡ false
      → get other (replace key a m) ≡ get other m
  unfolding get replace
  get-replace_other key other a [] differs = refl
  get-replace_other key other a ((k, c) ∷ rest) differs = elim (Bool-cases (bytes_eq k other)) [
    | inl same ↦
        let apart : bytes_eq k key ≡ false =
          rw ((bytes_eq_iff k other).0 same) (differs_back key other differs) in
        rw (same, apart) refl
    | inr mismatch ↦ rw mismatch (get-replace_other key other a rest differs)
  ]
