-- ===== src/ChRing/Search.antt =====
-- The binary search over the ring, and the clockwise neighbour that it selects.
use mathlib.Core.Option.{some-injective}
use native.Mathlib.Decide.{dec_lt}
use native.Mathlib.Nat.{mod-eq_of_lt, mod_self}
use trust_meta.Base.{
  ℕ, zero, suc, ◌+◌, ◌-◌, ◌/◌, ◌%◌, ◌^◌, ◌≤◌, ◌<◌, ◌≡◌, refl, sym, ap, ◌∙◌, ◌⊎◌, inl, inr, List, [],
  ◌∷◌, some, false, get_elem?, get_elem?-lt, get_elem?-some, length, All, All-of_index, All_index,
  ltb, leb, ◌==◌, arith, Bool-cases, if◌then◌else◌,
}
use trust_meta.ChRing.{Vnode, SearchResult, found, missing, search_loop, binary_search, start_index}
use trust_meta.ChRing.Sorted.{IsSorted, IsSorted-le}

module _ (vs : List Vnode) (hash : ℕ) where
  abbrev pub Below : ℕ → Type 0
  Below i = (j : ℕ) (v : Vnode) → j < i → get_elem? vs j ≡ some v → v.0 < hash

  abbrev pub Above : ℕ → Type 0
  Above i = (j : ℕ) (v : Vnode) → i ≤ j → get_elem? vs j ≡ some v → hash < v.0

  -- What the standard library promises of a binary search over a sorted slice.
  abbrev pub IsSearched : SearchResult → Type 0
  IsSearched (found i) = (v : Vnode) × (get_elem? vs i ≡ some v) × (v.0 ≡ hash)
  IsSearched (missing i) = (i ≤ length vs) × Below i × Above i

  abbrev IsLow : ℕ → Type 0
  IsLow base = (base ≡ 0) ⊎ ((v : Vnode) × (get_elem? vs base ≡ some v) × (v.0 ≤ hash))

module _ (vs : List Vnode) (sorted : IsSorted vs) (hash : ℕ) where
  Above-of : (i : ℕ) (v : Vnode) → get_elem? vs i ≡ some v → hash < v.0 → Above vs hash i
  Above-of i v e h j w le f = omega (arith, IsSorted-le vs i j v w sorted le e f)

  Below-of : (i : ℕ) (v : Vnode) → get_elem? vs i ≡ some v → v.0 < hash → Below vs hash (i + 1)
  Below-of i v e h j w lt f = omega (arith, IsSorted-le vs j i w v sorted (omega arith) f e)

  -- One entry is left.
  search_last :
      (fuel base : ℕ) (v : Vnode)
      → get_elem? vs base ≡ some v
      → IsLow vs hash base
      → Above vs hash (base + 1)
      → (size : ℕ) → size ≤ 1
      → IsSearched vs hash (search_loop vs hash (suc fuel) base size)
  unfolding search_loop
  search_last fuel base v e low above size one =
      let small : ltb 1 size ≡ false = ground arith in
      let inside = get_elem?-lt vs base e in
      elim (Bool-cases (v.0 == hash)) [
        | inl eq ↦ rw (small, e, eq, search_loop) (v, e, ground arith)
        | inr ne ↦ elim (Bool-cases (ltb v.0 hash)) [
          | inl lt ↦
              let less : v.0 < hash = ground arith in
              rw (small, e, ne, lt, search_loop) (omega arith, Below-of base v e less, above)
          | inr gt ↦
              let more : hash < v.0 = ground arith in
              elim low [
                | inl start ↦
                    rw (small, e, ne, gt, search_loop)
                      (omega arith, λ j w lt f. absurd (omega arith), Above-of base v e more)
                | inr (w, f, le) ↦
                    let same : w ≡ v = some-injective w v (sym f ∙ e) in
                    let same_hash : w.0 ≡ v.0 = ap (λ (o : Vnode). o.0) same in absurd (omega arith)
              ]
        ]
      ]

  search_loop-IsSearched :
      (fuel base size : ℕ)
      → size ≤ fuel
      → 0 < size
      → base + size ≤ length vs
      → IsLow vs hash base
      → Above vs hash (base + size)
      → IsSearched vs hash (search_loop vs hash fuel base size)
  unfolding search_loop
  search_loop-IsSearched zero base size enough pos fits low above = absurd (omega arith)
  search_loop-IsSearched (suc fuel) base size enough pos fits low above =
      elim (Bool-cases (ltb 1 size)) [
        | inr small ↦
            let one : size ≡ 1 = ground arith in
            let (v, e) = get_elem?-some vs base (omega arith) in
            search_last fuel base v e low (rw one at above) size (omega arith)
        | inl large ↦
            let many : 1 < size = ground arith in
            let half = size / 2 in
            let (v, e) = get_elem?-some vs (base + half) (omega arith) in
            elim (Bool-cases (ltb hash v.0)) [
              | inl less ↦
                  let more : hash < v.0 = ground arith in
                  rw (large, e, less, search_loop)
                    (search_loop-IsSearched fuel base (size - half) (omega arith) (omega arith)
                      (omega arith) low
                      (λ j w le f. Above-of (base + half) v e more j w (omega arith) f))
              | inr ge ↦
                  let le : v.0 ≤ hash = ground arith in
                  let end : base + half + (size - half) ≡ base + size = omega arith in
                  rw (large, e, ge, search_loop)
                    (search_loop-IsSearched fuel (base + half) (size - half) (omega arith)
                      (omega arith) (omega arith) (inr (v, e, le)) (rw end above))
            ]
      ]

-- On a list that is sorted by hash, binary_search returns a place that holds the hash, or a place
-- before which all hashes are smaller and from which on all are larger.
pub binary_search-IsSearched :
    (vs : List Vnode) (hash : ℕ) → IsSorted vs → IsSearched vs hash (binary_search vs hash)
unfolding binary_search
binary_search-IsSearched [] hash sorted =
    (omega arith, λ j v lt e. absurd (omega arith), λ j v le e. absurd (cc))
binary_search-IsSearched (v ∷ vs) hash sorted =
    let n = length (v ∷ vs) in
    search_loop-IsSearched (v ∷ vs) sorted hash n 0 n (omega arith) (omega arith) (omega arith)
      (inl refl) (λ j w le e. absurd (omega (arith, get_elem?-lt (v ∷ vs) j e)))

-- How far clockwise a hash lies behind another, round the 64-bit circle.
abbrev pub clockwise : ℕ → ℕ → ℕ
clockwise hash h = if leb hash h then h - hash else h + 2 ^ 64 - hash

-- Hashes are 64-bit words.
abbrev pub IsWord : ℕ → Type 0
IsWord h = h < 2 ^ 64

abbrev pub AreWords : List Vnode → Type 0
AreWords = All (λ (v : Vnode). IsWord v.0)

-- No virtual node is nearer clockwise.
abbrev pub IsNearest : List Vnode → ℕ → Vnode → Type 0
IsNearest vs hash v = All (λ (w : Vnode). clockwise hash v.0 ≤ clockwise hash w.0) vs

module _ (vs : List Vnode) (sorted : IsSorted vs) (words : AreWords vs) (hash : ℕ)
    (word : IsWord hash) where
  IsWord-at : (j : ℕ) (w : Vnode) → get_elem? vs j ≡ some w → IsWord w.0
  IsWord-at j w e = All_index (λ (v : Vnode). IsWord v.0) vs j w words e

  found-IsNearest : (v : Vnode) → v.0 ≡ hash → IsNearest vs hash v
  found-IsNearest v same = All-of_index _ vs (λ j w e. ground arith)

  after-IsNearest :
      (i : ℕ) (v : Vnode)
      → get_elem? vs i ≡ some v
      → Below vs hash i
      → Above vs hash i
      → IsNearest vs hash v
  after-IsNearest i v at below above =
      let here = above i v (omega arith) at in
      let small = IsWord-at i v at in
      All-of_index _ vs (λ j w e. elim (dec_lt j i) [
        | yes lt ↦ let less = below j w lt e in ground arith
        | no ge ↦
            let more = above j w (omega arith) e in
            let order = IsSorted-le vs i j v w sorted (omega arith) at e in ground arith
      ])

  wrap-IsNearest :
      (v : Vnode) → get_elem? vs 0 ≡ some v → Below vs hash (length vs) → IsNearest vs hash v
  wrap-IsNearest v at below = All-of_index _ vs (λ j w e.
      let less = below j w (get_elem?-lt vs j e) e in
      let first = below 0 v (omega (arith, get_elem?-lt vs j e)) at in
      let order = IsSorted-le vs 0 j v w sorted (omega arith) at e in ground arith)

  -- The start index is that of the nearest virtual node clockwise from the key's hash.
  pub start_index-IsNearest :
      0 < length vs
      → (v : Vnode) × (get_elem? vs (start_index vs hash) ≡ some v) × IsNearest vs hash v
  start_index-IsNearest pos =
      go (binary_search vs hash) refl (binary_search-IsSearched vs hash sorted)
    where
      go :
          (s : SearchResult)
          → binary_search vs hash ≡ s
          → IsSearched vs hash s
          → (v : Vnode) × (get_elem? vs (start_index vs hash) ≡ some v) × IsNearest vs hash v
      go (found i) run (v, e, same) =
          (v, (unfold start_index in rw (run, start_index) e), found-IsNearest v same)
      go (missing i) run (le, below, above) = elim (dec_lt i (length vs)) [
        | yes lt ↦
            let (v, e) = get_elem?-some vs i lt in
            let in_range : i % length vs ≡ i = mod-eq_of_lt lt in
            (
              v,
              (unfold start_index in rw (run, start_index, in_range) e),
              after-IsNearest i v e below above,
            )
        | no ge ↦
            let all : i ≡ length vs = omega arith in
            let (v, e) = get_elem?-some vs 0 pos in
            let zero_index : i % length vs ≡ 0 = rw all (mod_self (length vs)) in
            (
              v,
              (unfold start_index in rw (run, start_index, zero_index) e),
              wrap-IsNearest v e (rw all at below),
            )
      ]
