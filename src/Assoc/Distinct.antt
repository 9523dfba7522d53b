-- ===== src/Assoc/Distinct.antt =====
-- Maps in which every key has one entry, as a `HashMap` has it.
use trust_meta.Base.{
  Bool, not, [], ◌∷◌, none, Bytes, bytes_eq, bytes_eq_refl, ◌≡◌, refl, ◌∙◌, inl, inr, Bool-cases,
}
use trust_meta.Assoc.{Assoc, get, retain, remove, insert, replace, get-retain, get-retain_dropped}

module _ {ℓ} {A : Type ℓ} where
  unfoldable pub IsDistinct : Assoc A → Type ℓ
  IsDistinct [] = Unit
  IsDistinct ((k, a) ∷ rest) = (get k rest ≡ none) × IsDistinct rest

  retain-IsDistinct :
      (keep : Bytes → Bool) (m : Assoc A) → IsDistinct m → IsDistinct (retain keep m)
  unfolding IsDistinct retain
  retain-IsDistinct keep [] d = d
  retain-IsDistinct keep ((k, a) ∷ rest) (fresh, d) = elim (Bool-cases (keep k)) [
    | inr gone ↦ rw gone (retain-IsDistinct keep rest d)
    | inl kept ↦ rw kept (get-retain keep k rest kept ∙ fresh, retain-IsDistinct keep rest d)
  ]

  pub insert-IsDistinct :
      (key : Bytes) (a : A) (m : Assoc A) → IsDistinct m → IsDistinct (insert key a m)
  unfolding IsDistinct insert remove
  insert-IsDistinct key a m d = (
    get-retain_dropped (λ k. not (bytes_eq k key)) key m (rw (bytes_eq_refl key) refl),
    retain-IsDistinct (λ k. not (bytes_eq k key)) m d,
  )

  missing_replace :
      (key k : Bytes) (a : A) (m : Assoc A) → get k m ≡ none → get k (replace key a m) ≡ none
  unfolding get replace
  missing_replace key k a [] h = h
  missing_replace key k a ((k', c) ∷ rest) h = elim (Bool-cases (bytes_eq k' k)) [
    | inl same ↦ absurd (cc (rw (same, get) at h))
    | inr other ↦ rw other (missing_replace key k a rest (rw (other, get) at h))
  ]

  pub replace-IsDistinct :
      (key : Bytes) (a : A) (m : Assoc A) → IsDistinct m → IsDistinct (replace key a m)
  unfolding IsDistinct replace
  replace-IsDistinct key a [] d = d
  replace-IsDistinct key a ((k, c) ∷ rest) (fresh, d) =
      (missing_replace key k a rest fresh, replace-IsDistinct key a rest d)
