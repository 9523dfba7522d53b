-- ===== src/Epring/Shape.antt =====
-- The part of the entries that routing reads: all but the counters and the summaries.
use trust_meta.Base.{
  ℕ, zero, suc, ◌+◌, ◌≡◌, refl, sym, ap, ◌∙◌, List, [], ◌∷◌, map, none, some, length, get_elem?,
  set, Bytes, Option-cases, inl, inr, arith, get_elem?-map, length-map,
}
use mathlib.Core.List.{tail-eq_of_cons-eq}
use trust_meta.Hex.{hex_nibble, root_entry_index_from_prefix}
use trust_meta.Epring.Walk.{
  gone, leaf, short, down, at, route_loop-gone, route_loop-leaf, route_loop-short, route_loop-down,
  find_loop-gone, find_loop-leaf, find_loop-short, find_loop-down,
}
use trust_meta.Epring.{
  EpringEntry, Epring, route_loop, find_loop, route_key_hex, find_entry_index, is_empty,
}

abbrev pub shape : EpringEntry → EpringEntry
shape entry = record entry { counter = 0; root_summary = [] }

abbrev pub shapes : List EpringEntry → List EpringEntry
shapes = map shape

pub shapes-set :
    (es : List EpringEntry) (k : ℕ) (e v : EpringEntry)
    → get_elem? es k ≡ some e
    → shape v ≡ shape e
    → shapes (set es k v) ≡ shapes es
shapes-set [] k e v h s = refl
shapes-set (x ∷ es) zero e v h s = ground arith
shapes-set (x ∷ es) (suc k) e v h s = ap (λ t. shape x ∷ t) (shapes-set es k e v h s)

-- Entries of one shape stand at the same places.
pub get_elem?-shapes :
    (es es' : List EpringEntry) (i : ℕ) {e' : EpringEntry}
    → shapes es' ≡ shapes es
    → get_elem? es' i ≡ some e'
    → (e : EpringEntry) × (get_elem? es i ≡ some e) × (shape e' ≡ shape e)
get_elem?-shapes [] [] i s h = absurd (cc)
get_elem?-shapes [] (y ∷ es') i s h = absurd (cc)
get_elem?-shapes (x ∷ es) [] i s h = absurd (cc)
get_elem?-shapes (x ∷ es) (y ∷ es') zero s h = (x, refl, ground arith)
get_elem?-shapes (x ∷ es) (y ∷ es') (suc i) s h = get_elem?-shapes es es' i (tail-eq_of_cons-eq s) h

pub get_elem?-map_none :
    (es : List EpringEntry) (i : ℕ) → get_elem? es i ≡ none → get_elem? (shapes es) i ≡ none
get_elem?-map_none [] i h = refl
get_elem?-map_none (x ∷ es) zero h = cc
get_elem?-map_none (x ∷ es) (suc i) h = get_elem?-map_none es i h

pub get_elem?-shapes-some :
    (es : List EpringEntry) (i : ℕ) (e : EpringEntry)
    → get_elem? es i ≡ some e
    → get_elem? (shapes es) i ≡ some (shape e)
get_elem?-shapes-some es i e h = get_elem?-map shape es i h

module _ (es : List EpringEntry) (bytes : Bytes) where
  route_loop-shapes :
      (fuel i : ℕ) → route_loop (shapes es) bytes fuel i ≡ route_loop es bytes fuel i
  route_loop-shapes zero i = unfold route_loop in refl
  route_loop-shapes (suc fuel) i = elim (at es bytes (λ e. e.prefix_len) i) [
    | gone h ↦
        route_loop-gone (shapes es) bytes fuel i (get_elem?-map_none es i h)
        ∙ sym (route_loop-gone es bytes fuel i h)
    | leaf e h s ↦
        route_loop-leaf (shapes es) bytes fuel i (shape e) (get_elem?-shapes-some es i e h) s
        ∙ sym (route_loop-leaf es bytes fuel i e h s)
    | short e start h s b ↦
        route_loop-short (shapes es) bytes fuel i (shape e) start (get_elem?-shapes-some es i e h) s
          b
        ∙ sym (route_loop-short es bytes fuel i e start h s b)
    | down e start byte h s b ↦
        route_loop-down (shapes es) bytes fuel i (shape e) start byte
          (get_elem?-shapes-some es i e h) s b
        ∙ route_loop-shapes fuel (start + hex_nibble byte)
        ∙ sym (route_loop-down es bytes fuel i e start byte h s b)
  ]

  find_loop-shapes :
      (rounds depth i : ℕ)
      → find_loop (shapes es) bytes rounds depth i ≡ find_loop es bytes rounds depth i
  find_loop-shapes zero depth i = unfold find_loop in refl
  find_loop-shapes (suc rounds) depth i = elim (at es bytes (λ _. depth) i) [
    | gone h ↦
        find_loop-gone (shapes es) bytes rounds depth i (get_elem?-map_none es i h)
        ∙ sym (find_loop-gone es bytes rounds depth i h)
    | leaf e h s ↦
        find_loop-leaf (shapes es) bytes rounds depth i (shape e) (get_elem?-shapes-some es i e h) s
        ∙ sym (find_loop-leaf es bytes rounds depth i e h s)
    | short e start h s b ↦
        find_loop-short (shapes es) bytes rounds depth i (shape e) start
          (get_elem?-shapes-some es i e h) s b
        ∙ sym (find_loop-short es bytes rounds depth i e start h s b)
    | down e start byte h s b ↦
        find_loop-down (shapes es) bytes rounds depth i (shape e) start byte
          (get_elem?-shapes-some es i e h) s b
        ∙ find_loop-shapes rounds (depth + 1) (start + hex_nibble byte)
        ∙ sym (find_loop-down es bytes rounds depth i e start byte h s b)
  ]

pub length-shapes : (es es' : List EpringEntry) → shapes es' ≡ shapes es → length es' ≡ length es
length-shapes es es' s = sym (length-map es' shape) ∙ ap length s ∙ length-map es shape

is_empty-shapes : (es : List EpringEntry) → is_empty (shapes es) ≡ is_empty es
unfolding is_empty
is_empty-shapes [] = refl
is_empty-shapes (x ∷ es) = refl

-- Two rings that differ in counters and summaries alone.
pub record SameShape (ring ring' : Epring) : Type 0 where
  pub entries : shapes ring'.entries ≡ shapes ring.entries
  pub node_names : ring'.node_names ≡ ring.node_names
  pub root_prefix_len : ring'.root_prefix_len ≡ ring.root_prefix_len
  pub split_threshold : ring'.split_threshold ≡ ring.split_threshold

module _ {ring ring' : Epring} (same : SameShape ring ring') where
  is_empty_same : is_empty ring'.entries ≡ is_empty ring.entries
  is_empty_same =
      sym (is_empty-shapes ring'.entries) ∙ ap is_empty same.entries ∙ is_empty-shapes ring.entries

  -- Counters and summaries do not change where a key is routed.
  pub route_key_hex-SameShape : (key : Bytes) → route_key_hex ring' key ≡ route_key_hex ring key
  unfolding route_key_hex
  route_key_hex-SameShape key =
      let loops : (f i : ℕ) → route_loop ring'.entries key f i ≡ route_loop ring.entries key f i =
        λ f i.
          sym (route_loop-shapes ring'.entries key f i)
          ∙ ap (λ es. route_loop es key f i) same.entries
          ∙ route_loop-shapes ring.entries key f i in
      let size = length-shapes ring.entries ring'.entries same.entries in
      elim (Option-cases (root_entry_index_from_prefix key ring.root_prefix_len)) [
        | inl e ↦ simp (is_empty_same, same.root_prefix_len, e)
        | inr (i, e) ↦ simp (is_empty_same, same.root_prefix_len, size, e, loops)
      ]

  -- Nor which entry a prefix names.
  pub find_entry_index-SameShape :
      (prefix : Bytes) → find_entry_index ring' prefix ≡ find_entry_index ring prefix
  unfolding find_entry_index
  find_entry_index-SameShape prefix =
      let loops : (r d i : ℕ)
          → find_loop ring'.entries prefix r d i ≡ find_loop ring.entries prefix r d i =
        λ r d i.
          sym (find_loop-shapes ring'.entries prefix r d i)
          ∙ ap (λ es. find_loop es prefix r d i) same.entries
          ∙ find_loop-shapes ring.entries prefix r d i in
      elim (Option-cases (root_entry_index_from_prefix prefix ring.root_prefix_len)) [
        | inl e ↦ simp (is_empty_same, same.root_prefix_len, e)
        | inr (i, e) ↦ simp (is_empty_same, same.root_prefix_len, e, loops)
      ]
