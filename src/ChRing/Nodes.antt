-- ===== src/ChRing/Nodes.antt =====
-- The map of nodes, the names of virtual nodes, and what `retain` keeps.
use trust_meta.Base.{
  ℕ, ◌≡◌, ◌≢◌, refl, sym, ap, ◌∙◌, inl, inr, List, [], ◌∷◌, ◌++◌, some, true, false, Bytes,
  bytes_eq, bytes_eq_iff, In, ascii, Bool-cases,
}
use mathlib.Core.List.{append_assoc}
use trust_meta.Text.{contains, starts_with, rsplit_once, decimal}
use trust_meta.Text.Split.{
  contains-append, rsplit_once-append, decimal-contains, starts_with-separator, starts_with-append,
}
use trust_meta.ChRing.{Vnode, contains_key, remove_key, vnode_key, retain}

-- A key of the map has an entry.
pub contains_key-In :
    (name : Bytes) (nodes : List (Bytes × ℕ))
    → contains_key name nodes ≡ true
    → (count : ℕ) × In (name, count) nodes
unfolding contains_key
contains_key-In name [] h = absurd (cc)
contains_key-In name ((key, count) ∷ nodes) h = elim (Bool-cases (bytes_eq key name)) [
  | inl same ↦ (count, inl (ap (λ k. (k, count)) (sym ((bytes_eq_iff key name).0 same))))
  | inr other ↦ let (c, i) = contains_key-In name nodes (rw other at h) in (c, inr i)
]

pub In-remove_key :
    (name : Bytes) (nodes : List (Bytes × ℕ)) (n : Bytes × ℕ)
    → In n (remove_key name nodes)
    → In n nodes × (n.0 ≢ name)
unfolding remove_key
In-remove_key name [] n i = elim i [ ]
In-remove_key name ((key, count) ∷ nodes) n i = elim (Bool-cases (bytes_eq key name)) [
  | inl same ↦ let (rest, ne) = In-remove_key name nodes n (rw same at i) in (inr rest, ne)
  | inr other ↦ elim (rw other at i) as (λ _. In n ((key, count) ∷ nodes) × (n.0 ≢ name)) [
    | inl e ↦ (
      inl e,
      λ is. cc (other, (bytes_eq_iff key name).1 (sym (ap (λ (p : Bytes × ℕ). p.0) e) ∙ is)),
    )
    | inr r ↦ let (rest, ne) = In-remove_key name nodes n r in (inr rest, ne)
  ]
]

pub remove_key-In :
    (name : Bytes) (nodes : List (Bytes × ℕ)) (n : Bytes × ℕ)
    → In n nodes
    → n.0 ≢ name
    → In n (remove_key name nodes)
unfolding remove_key
remove_key-In name [] n i ne = elim i [ ]
remove_key-In name ((key, count) ∷ nodes) n (inl e) ne = elim (Bool-cases (bytes_eq key name)) [
  | inl same ↦ absurd (ne (ap (λ (p : Bytes × ℕ). p.0) e ∙ (bytes_eq_iff key name).0 same))
  | inr other ↦ rw other (inl e)
]
remove_key-In name ((key, count) ∷ nodes) n (inr i) ne = elim (Bool-cases (bytes_eq key name)) [
  | inl same ↦ rw same (remove_key-In name nodes n i ne)
  | inr other ↦ rw other (inr (remove_key-In name nodes n i ne))
]

-- The name before the last `#` of a virtual node is the node's.
pub rsplit_once-vnode_key :
    (name : Bytes) (i : ℕ)
    → rsplit_once b'#' (vnode_key name i) ≡ some (name, ascii "vnode" ++ decimal i)
unfolding vnode_key
rsplit_once-vnode_key name i = rsplit_once-append b'#' name (ascii "vnode" ++ decimal i) (
    contains-append b'#' (ascii "vnode") (decimal i)
    ∙ rw (decimal-contains i) (unfold contains in refl))

-- `remove_node`'s test finds the virtual nodes of the node, and no others.
pub starts_with-vnode_key :
    (name name' : Bytes) (i : ℕ)
    → contains b'#' name ≡ false
    → contains b'#' name' ≡ false
    → starts_with (name ++ b'#' ∷ []) (vnode_key name' i) ≡ true
    → name ≡ name'
unfolding vnode_key
starts_with-vnode_key name name' i h h' s =
    starts_with-separator b'#' name name' (ascii "vnode" ++ decimal i) h h' s

pub vnode_key-starts_with :
    (name : Bytes) (i : ℕ) → starts_with (name ++ b'#' ∷ []) (vnode_key name i) ≡ true
unfolding vnode_key
vnode_key-starts_with name i =
    ap (starts_with (name ++ b'#' ∷ []))
      (sym (append_assoc name (b'#' ∷ []) (ascii "vnode" ++ decimal i)))
    ∙ starts_with-append (name ++ b'#' ∷ []) (ascii "vnode" ++ decimal i)

pub In-retain :
    (prefix : Bytes) (vs : List Vnode) (v : Vnode)
    → In v (retain prefix vs)
    → In v vs × (starts_with prefix v.1 ≡ false)
unfolding retain
In-retain prefix [] v i = elim i [ ]
In-retain prefix (w ∷ ws) v i = elim (Bool-cases (starts_with prefix w.1)) [
  | inl drop ↦ let (rest, f) = In-retain prefix ws v (rw drop at i) in (inr rest, f)
  | inr keep ↦ elim (rw keep at i) as (λ _. In v (w ∷ ws) × (starts_with prefix v.1 ≡ false)) [
    | inl e ↦ (inl e, ap (λ (o : Vnode). starts_with prefix o.1) e ∙ keep)
    | inr r ↦ let (rest, f) = In-retain prefix ws v r in (inr rest, f)
  ]
]

pub retain-In :
    (prefix : Bytes) (vs : List Vnode) (v : Vnode)
    → In v vs
    → starts_with prefix v.1 ≡ false
    → In v (retain prefix vs)
unfolding retain
retain-In prefix [] v i f = elim i [ ]
retain-In prefix (w ∷ ws) v (inl e) f =
    let keep : starts_with prefix w.1 ≡ false =
      ap (λ (o : Vnode). starts_with prefix o.1) (sym e) ∙ f in
    rw keep (inl e)
retain-In prefix (w ∷ ws) v (inr i) f = elim (Bool-cases (starts_with prefix w.1)) [
  | inl drop ↦ rw drop (retain-In prefix ws v i f)
  | inr keep ↦ rw keep (inr (retain-In prefix ws v i f))
]
