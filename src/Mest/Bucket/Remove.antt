-- ===== src/Mest/Bucket/Remove.antt =====
-- crates/storager/ads_lib/src/mest/bucket.rs: a segment from which one pair is removed.
use mathlib.Core.Option.{some-injective}
use mathlib.Core.Option.{map as map_option}
use trust_meta.Base.{
  ℕ, zero, suc, ◌-◌, ◌<◌, ◌≡◌, ◌≢◌, refl, sym, ap, ◌∙◌, List, [], ◌∷◌, Option, none, some,
  get_elem?, length, not, Bytes, done, bytes_eq, false, inl, inr, Bool-cases, bytes_eq_iff,
  bytes_eq_refl, ltb, arith, if◌then◌else◌, get_elem?-lt,
}
use trust_meta.Assoc.{Assoc, get, remove, get-retain, get-retain_dropped, differs_back}
use trust_meta.Merkle.{MerkleTree, new_empty, recompute, root_loop}
use trust_meta.Merkle.Total.{recompute_total}
use trust_meta.Mest.Segment.{Kvpair, values, remove_at, shift_down}
use trust_meta.Mest.Bucket.{rebuild_merkle}
use trust_meta.Mest.Bucket.Valid.{IsSegment}

-- The new place of an item behind, and the old place of one that is left.
abbrev pub down : ℕ → ℕ → ℕ
down idx place = if ltb idx place then place - 1 else place

abbrev up : ℕ → ℕ → ℕ
up idx place = if ltb place idx then place else suc place

get-shift_down :
    (idx : ℕ) (key : Bytes) (m : Assoc ℕ)
    → get key (shift_down idx m) ≡ map_option (down idx) (get key m)
unfolding get shift_down
get-shift_down idx key [] = refl
get-shift_down idx key ((k, place) ∷ rest) = elim (Bool-cases (bytes_eq k key)) [
  | inl same ↦ rw same refl
  | inr other ↦ rw other (get-shift_down idx key rest)
]

pub get_elem?-remove_at {ℓ} :
    {A : Type ℓ} (xs : List A) (idx j : ℕ)
    → idx < length xs
    → get_elem? (remove_at xs idx) j ≡ get_elem? xs (up idx j)
unfolding remove_at
get_elem?-remove_at [] idx j inside = absurd (omega arith)
get_elem?-remove_at (x ∷ xs) zero j inside = let at : up 0 j ≡ suc j = ground arith in rw at refl
get_elem?-remove_at (x ∷ xs) (suc idx) zero inside =
    let at : up (suc idx) 0 ≡ 0 = ground arith in rw at refl
get_elem?-remove_at (x ∷ xs) (suc idx) (suc j) inside = elim (Bool-cases (ltb j idx)) [
  | inl before ↦
      let at : up idx j ≡ j = rw before refl in
      let at' : up (suc idx) (suc j) ≡ suc j = ground arith in
      get_elem?-remove_at xs idx j (omega arith) ∙ rw at (rw at' refl)
  | inr behind ↦
      let at : up idx j ≡ suc j = rw behind refl in
      let at' : up (suc idx) (suc j) ≡ suc (suc j) = ground arith in
      get_elem?-remove_at xs idx j (omega arith) ∙ rw at (rw at' refl)
]

pub up-down : (idx place : ℕ) → place ≢ idx → up idx (down idx place) ≡ place
up-down idx place ne = ground arith

down-up : (idx j : ℕ) → down idx (up idx j) ≡ j
down-up idx j = ground arith

up-ne : (idx j : ℕ) → up idx j ≢ idx
up-ne idx j = ground arith

get-remove_other :
    (key other : Bytes) (m : Assoc ℕ)
    → bytes_eq key other ≡ false
    → get other (remove key m) ≡ get other m
unfolding remove
get-remove_other key other m differs =
    get-retain (λ k. not (bytes_eq k key)) other m (rw (differs_back key other differs) refl)

get-remove_self : (key : Bytes) (m : Assoc ℕ) → get key (remove key m) ≡ none
unfolding remove
get-remove_self key m =
    get-retain_dropped (λ k. not (bytes_eq k key)) key m (rw (bytes_eq_refl key) refl)

-- What the map has for a key after the removal.
abbrev pub removed_map : Bytes → ℕ → Assoc ℕ → Assoc ℕ
removed_map key idx m = shift_down idx (remove key m)

pub get-removed_self :
    (key : Bytes) (idx : ℕ) (m : Assoc ℕ) → get key (removed_map key idx m) ≡ none
get-removed_self key idx m =
    get-shift_down idx key (remove key m) ∙ (rw (get-remove_self key m) refl)

pub get-removed_other :
    (key other : Bytes) (idx : ℕ) (m : Assoc ℕ)
    → bytes_eq key other ≡ false
    → get other (removed_map key idx m) ≡ map_option (down idx) (get other m)
get-removed_other key other idx m differs =
    get-shift_down idx other (remove key m)
    ∙ ap (map_option (down idx)) (get-remove_other key other m differs)

map_option-some :
    (f : ℕ → ℕ) (o : Option ℕ) (j : ℕ)
    → map_option f o ≡ some j
    → (i : ℕ) × (o ≡ some i) × (f i ≡ j)
map_option-some f none j h = absurd (cc h)
map_option-some f (some i) j h = (i, refl, some-injective _ _ h)

module _ (sha256 : Bytes → Bytes) where
  pub rebuild_merkle-recompute :
      (seg : List Kvpair)
      → (mt : MerkleTree) × (rebuild_merkle sha256 seg ≡ done mt)
        × (recompute sha256 (values seg) ≡ done mt)
  unfolding rebuild_merkle recompute root_loop
  rebuild_merkle-recompute [] = (new_empty, refl, refl)
  rebuild_merkle-recompute (kv ∷ seg) =
      let (mt, run, _) = recompute_total sha256 (values (kv ∷ seg)) in (mt, run, run)

  module _ (n : ℕ) (seg_key : Bytes) (seg : List Kvpair) (idx_map : Assoc ℕ) (mt mt' : MerkleTree)
      (s : IsSegment sha256 n seg_key seg idx_map mt) (key : Bytes) (idx : ℕ)
      (here : get key idx_map ≡ some idx) where
    inside : idx < length seg
    inside = let (kv, at, _) = s.found key idx here in get_elem?-lt seg idx at

    removed_at :
        (j : ℕ) (kv : Kvpair)
        → get_elem? (remove_at seg idx) j ≡ some kv
        → get_elem? seg (up idx j) ≡ some kv
    removed_at j kv at = sym (get_elem?-remove_at seg idx j inside) ∙ at

    -- A pair that is left has another key.
    left_differs :
        (j : ℕ) (kv : Kvpair) → get_elem? seg (up idx j) ≡ some kv → bytes_eq key kv.key ≡ false
    left_differs j kv at = elim (Bool-cases (bytes_eq key kv.key)) [
      | inr other ↦ other
      | inl same ↦
          let places : up idx j ≡ idx = some-injective _ _ (
            sym (s.placed (up idx j) kv at)
            ∙ ap (λ k. get k idx_map) (sym ((bytes_eq_iff key kv.key).0 same))
            ∙ here) in
          absurd (up-ne idx j places)
    ]

    pub removed-IsSegment :
        recompute sha256 (values (remove_at seg idx)) ≡ done mt'
        → IsSegment sha256 n seg_key (remove_at seg idx) (removed_map key idx idx_map) mt'
    removed-IsSegment run = record {
      found = λ k j at. elim (Bool-cases (bytes_eq key k)) [
        | inl same ↦ absurd (cc (get-removed_self key idx idx_map, (bytes_eq_iff key k).0 same, at))
        | inr differs ↦
            let (place, was, is) =
              map_option-some (down idx) (get k idx_map) j
                (sym (get-removed_other key k idx idx_map differs) ∙ at) in
            let (kv, at', its) = s.found k place was in
            let ne : place ≢ idx = λ same.
              let (kv0, at0, its0) = s.found key idx here in
              absurd (
                cc (
                  some-injective kv kv0 (sym at' ∙ ap (get_elem? seg) same ∙ at0),
                  its,
                  its0,
                  bytes_eq_refl key,
                  differs,
                )) in
            (
              kv,
              get_elem?-remove_at seg idx j inside
                  ∙ ap (λ i. get_elem? seg (up idx i)) (sym is)
                  ∙ ap (get_elem? seg) (up-down idx place ne)
                  ∙ at',
              its,
            )
      ];
      placed = λ j kv at.
          let at' = removed_at j kv at in
          get-removed_other key kv.key idx idx_map (left_differs j kv at')
          ∙ ap (map_option (down idx)) (s.placed (up idx j) kv at')
          ∙ ap some (down-up idx j);
      owned = λ j kv at. s.owned (up idx j) kv (removed_at j kv at);
      tree = run;
    }
