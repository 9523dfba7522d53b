-- ===== src/Mest/Digits.antt =====
-- crates/storager/ads_lib/src/mest/util.rs: the digits by which keys are routed.
use Prim.Native.Nat.{bit_xor}
use native.Mathlib.Nat.{mod-lt}
use trust_meta.Base.{
  ℕ, ◌+◌, ◌*◌, ◌/◌, ◌%◌, ◌^◌, ◌<◌, ◌≡◌, false, List, [], ◌∷◌, map, range', ◌==◌, if◌then◌else◌,
  Bytes, arith,
}

-- `as u64`, and the wrapping operations.
abbrev pub u64_mod : ℕ
u64_mod = 2 ^ 64

unfoldable pub fnv1a64 : ℕ → Bytes → ℕ
fnv1a64 h [] = h
fnv1a64 h (b ∷ bytes) = fnv1a64 (bit_xor h b * 0x100000001b3 % u64_mod) bytes

unfoldable pub splitmix64 : ℕ → ℕ
splitmix64 x =
    let y = (x + 0x9e3779b97f4a7c15) % u64_mod in
    let z = bit_xor y (y / 2 ^ 30) * 0xbf58476d1ce4e5b9 % u64_mod in
    let w = bit_xor z (z / 2 ^ 27) * 0x94d049bb133111eb % u64_mod in bit_xor w (w / 2 ^ 31)

unfoldable pub digit_at_mixed : Bytes → ℕ → ℕ → ℕ
unfolding fnv1a64 splitmix64
digit_at_mixed key rdx pos =
    if rdx == 0 then 0 else splitmix64 (bit_xor (fnv1a64 0xcbf29ce484222325 key) pos) % rdx

unfoldable pub digits_prefix_mixed : Bytes → ℕ → ℕ → List ℕ
unfolding digit_at_mixed
digits_prefix_mixed key rdx len = map (digit_at_mixed key rdx) (range' 0 len)

pub digit_at_mixed-lt : (key : Bytes) (rdx pos : ℕ) → 0 < rdx → digit_at_mixed key rdx pos < rdx
unfolding digit_at_mixed
digit_at_mixed-lt key rdx pos positive =
    let more : (rdx == 0) ≡ false = ground arith in
    rw more (mod-lt (splitmix64 (bit_xor (fnv1a64 0xcbf29ce484222325 key) pos)) positive)
