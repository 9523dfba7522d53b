-- ===== src/Text/Split.antt =====
-- Names and separators: a name before the last separator is read back.
use trust_meta.Base.{
  ℕ, zero, suc, ◌+◌, ◌<◌, ◌/◌, ◌%◌, ◌≡◌, refl, inl, inr, false, true, ◌||◌, [], ◌∷◌, ◌++◌, none,
  some, ltb, Bytes, Bool-cases, arith,
}
use trust_meta.Text.{contains, starts_with, rsplit_once, decimal_digits, decimal}

pub contains-append :
    (c : ℕ) (xs ys : Bytes) → contains c (xs ++ ys) ≡ (contains c xs || contains c ys)
unfolding contains
contains-append c [] ys = refl
contains-append c (x ∷ xs) ys = ground (arith, contains-append c xs ys)

rsplit_once-none : (c : ℕ) (xs : Bytes) → contains c xs ≡ false → rsplit_once c xs ≡ none
unfolding contains rsplit_once
rsplit_once-none c [] h = refl
rsplit_once-none c (x ∷ xs) h = ground (arith, rsplit_once-none c xs)

-- The last separator is found, whatever stands before it.
pub rsplit_once-append :
    (c : ℕ) (before after : Bytes)
    → contains c after ≡ false
    → rsplit_once c (before ++ c ∷ after) ≡ some (before, after)
unfolding rsplit_once
rsplit_once-append c [] after h = ground (arith, rsplit_once-none c after h)
rsplit_once-append c (x ∷ before) after h = rw (rsplit_once-append c before after h)

-- No decimal digit is below `0`.
decimal_digits-contains :
    (c : ℕ) (digits value : ℕ) → c < b'0' → contains c (decimal_digits digits value) ≡ false
unfolding decimal_digits contains
decimal_digits-contains c zero value below = refl
decimal_digits-contains c (suc digits) value below = elim (Bool-cases (ltb value 10)) [
  | inl small ↦ rw small (ground arith)
  | inr large ↦
      rw
        (
          large,
          contains-append c (decimal_digits digits (value / 10)) ((b'0' + value % 10) ∷ []),
          decimal_digits-contains c digits (value / 10) below,
        )
        (ground arith)
]

pub decimal-lacks : (c value : ℕ) → c < b'0' → contains c (decimal value) ≡ false
unfolding decimal
decimal-lacks c value below = decimal_digits-contains c 20 value below

pub decimal-contains : (value : ℕ) → contains b'#' (decimal value) ≡ false
decimal-contains value = decimal-lacks b'#' value (omega arith)

-- A text that starts with a name and a separator, where neither name holds the separator, has that
-- name.
pub starts_with-separator :
    (c : ℕ) (name name' rest : Bytes)
    → contains c name ≡ false
    → contains c name' ≡ false
    → starts_with (name ++ c ∷ []) (name' ++ c ∷ rest) ≡ true
    → name ≡ name'
unfolding contains starts_with
starts_with-separator c [] [] rest h h' s = refl
starts_with-separator c [] (y ∷ ys) rest h h' s = absurd (ground arith)
starts_with-separator c (x ∷ xs) [] rest h h' s = absurd (ground arith)
starts_with-separator c (x ∷ xs) (y ∷ ys) rest h h' s =
    ground (arith, starts_with-separator c xs ys rest)

pub starts_with-append : (prefix rest : Bytes) → starts_with prefix (prefix ++ rest) ≡ true
unfolding starts_with
starts_with-append [] rest = refl
starts_with-append (x ∷ xs) rest = ground (arith, starts_with-append xs rest)
