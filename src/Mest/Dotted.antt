-- ===== src/Mest/Dotted.antt =====
-- crates/storager/ads_lib/src/mest/seh.rs: the keys of the directory, digits in decimal parted by
-- dots, are different for different digits.
use native.Mathlib.Numerals.{unary_clauses}
use trust_meta.Base.{
  ℕ, zero, suc, ◌+◌, ◌-◌, ◌*◌, ◌/◌, ◌%◌, ◌^◌, ◌<◌, ◌≡◌, refl, sym, ap, ◌∙◌, List, [], ◌∷◌, ◌++◌,
  map, inl, inr, Bool-cases, true, false, ltb, ◌==◌, Bytes, All, arith,
}
use trust_meta.Text.{contains, decimal, decimal_digits, split_on, join}
use trust_meta.Text.Split.{decimal-lacks}

-- `map(|d| d.to_string()).collect::<Vec<_>>().join(".")`.
unfoldable pub dotted : List ℕ → Bytes
dotted digits = join (b'.' ∷ []) (map decimal digits)

-- A number read back from its decimal digits.
read_from : ℕ → Bytes → ℕ
read_from acc [] = acc
read_from acc (c ∷ text) = read_from (acc * 10 + (c - b'0')) text

read_from-snoc :
    (acc c : ℕ) (text : Bytes)
    → read_from acc (text ++ c ∷ []) ≡ read_from acc text * 10 + (c - b'0')
unfolding read_from
read_from-snoc acc c [] = refl
read_from-snoc acc c (x ∷ text) = read_from-snoc (acc * 10 + (x - b'0')) c text

shorter : (digits value : ℕ) → value < 10 ^ suc digits → value / 10 < 10 ^ digits
shorter digits value fits =
    let step : 10 ^ suc digits ≡ 10 ^ digits * 10 = simp unary_clauses refl in omega arith

tens : (value front : ℕ) → front ≡ value / 10 → front * 10 + (b'0' + value % 10 - b'0') ≡ value
tens value front is = omega arith

read-decimal_digits :
    (digits value : ℕ) → value < 10 ^ digits → read_from 0 (decimal_digits digits value) ≡ value
unfolding read_from decimal_digits
read-decimal_digits zero value fits = omega arith
read-decimal_digits (suc digits) value fits = elim (Bool-cases (ltb value 10)) [
  | inl small ↦ rw small (omega arith)
  | inr large ↦ rw large (
      read_from-snoc 0 (b'0' + value % 10) (decimal_digits digits (value / 10))
      ∙ tens value _ (read-decimal_digits digits (value / 10) (shorter digits value fits)))
]

-- A part without the separator is split off.
split_on-part :
    (c : ℕ) (part rest : Bytes)
    → contains c part ≡ false
    → split_on c (part ++ c ∷ rest) ≡ part ∷ split_on c rest
unfolding contains split_on
split_on-part c [] rest lacks = let same : (c == c) ≡ true = ground arith in rw same refl
split_on-part c (x ∷ part) rest lacks =
    let differs : (x == c) ≡ false = ground arith in
    let lacks' : contains c part ≡ false = ground arith in
    rw (differs, split_on-part c part rest lacks') refl

pub split_on-last : (c : ℕ) (part : Bytes) → contains c part ≡ false → split_on c part ≡ part ∷ []
unfolding contains split_on
split_on-last c [] lacks = refl
split_on-last c (x ∷ part) lacks =
    let differs : (x == c) ≡ false = ground arith in
    let lacks' : contains c part ≡ false = ground arith in
    rw (differs, split_on-last c part lacks') refl

-- Parts that are put together are split again.
pub split_on-dotted :
    (d : ℕ) (digits : List ℕ) → split_on b'.' (dotted (d ∷ digits)) ≡ map decimal (d ∷ digits)
unfolding dotted join
split_on-dotted d [] = split_on-last b'.' (decimal d) (decimal-lacks b'.' d (omega arith))
split_on-dotted d (d' ∷ digits) =
    split_on-part b'.' (decimal d) (dotted (d' ∷ digits)) (decimal-lacks b'.' d (omega arith))
    ∙ ap (λ t. decimal d ∷ t) (split_on-dotted d' digits)

snoc-cons : (text : Bytes) (c : ℕ) → (h : ℕ) × (t : Bytes) × (text ++ c ∷ [] ≡ h ∷ t)
snoc-cons [] c = (c, [], refl)
snoc-cons (x ∷ text) c = (x, text ++ c ∷ [], refl)

decimal_digits-cons :
    (digits value : ℕ) → (h : ℕ) × (t : Bytes) × (decimal_digits (suc digits) value ≡ h ∷ t)
unfolding decimal_digits
decimal_digits-cons digits value = elim (Bool-cases (ltb value 10)) [
  | inl small ↦ (b'0' + value, [], rw small refl)
  | inr large ↦
      let (h, t, is) = snoc-cons (decimal_digits digits (value / 10)) (b'0' + value % 10) in
      (h, t, rw large is)
]

decimal-cons : (value : ℕ) → (h : ℕ) × (t : Bytes) × (decimal value ≡ h ∷ t)
unfolding decimal
decimal-cons value = decimal_digits-cons 19 value

-- The digits read back from a key.
undotted : Bytes → List ℕ
undotted [] = []
undotted (c ∷ text) = map (read_from 0) (split_on b'.' (c ∷ text))

read-decimals :
    (digits : List ℕ)
    → All (λ d. d < 2 ^ 32) digits
    → map (read_from 0) (map decimal digits) ≡ digits
unfolding decimal
read-decimals [] small = refl
read-decimals (d ∷ digits) (fits, small) =
    ap (λ h. h ∷ map (read_from 0) (map decimal digits)) (read-decimal_digits 20 d (omega arith))
    ∙ ap (λ t. d ∷ t) (read-decimals digits small)

pub dotted-cons :
    (d : ℕ) (digits : List ℕ) → (c : ℕ) × (text : Bytes) × (dotted (d ∷ digits) ≡ c ∷ text)
unfolding dotted join
dotted-cons d [] = decimal-cons d
dotted-cons d (d' ∷ digits) =
    let (h, t, is) = decimal-cons d in
    (h, t ++ (b'.' ∷ dotted (d' ∷ digits)), ap (λ x. x ++ (b'.' ∷ dotted (d' ∷ digits))) is)

undotted-dotted :
    (digits : List ℕ) → All (λ d. d < 2 ^ 32) digits → undotted (dotted digits) ≡ digits
unfolding undotted dotted join
undotted-dotted [] small = refl
undotted-dotted (d ∷ digits) small =
    let (c, text, is) = dotted-cons d digits in
    ap undotted is
    ∙ ap (λ t. map (read_from 0) (split_on b'.' t)) (sym is)
    ∙ ap (map (read_from 0)) (split_on-dotted d digits)
    ∙ read-decimals (d ∷ digits) small

pub dotted-injective :
    (digits digits' : List ℕ)
    → All (λ d. d < 2 ^ 32) digits
    → All (λ d. d < 2 ^ 32) digits'
    → dotted digits ≡ dotted digits'
    → digits ≡ digits'
dotted-injective digits digits' small small' same =
    sym (undotted-dotted digits small) ∙ ap undotted same ∙ undotted-dotted digits' small'
