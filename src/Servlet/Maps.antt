-- ===== src/Servlet/Maps.antt =====
-- The map of the exact paths and the list of the patterns as maps.
use mnser.Common.{[], ◌∷◌, ◌++◌, Bool, true, false, if◌then◌else◌, none, some}
use mnser.Common.{◌≡◌, refl, ap, sym, ◌∙◌, arith, Bool-cases, inl, inr}
use mnser.Servlet.{Uri, same, Creator, Entries, find, assign, erase}

pub same_refl : (u : Uri) → same u u ≡ true
same_refl [] = refl
same_refl (x ∷ xs) = ground (arith, same_refl xs)

pub same_eq : (u v : Uri) → same u v ≡ true → u ≡ v
same_eq [] [] h = refl
same_eq [] (y ∷ ys) h = cc
same_eq (x ∷ xs) [] h = cc
same_eq (x ∷ xs) (y ∷ ys) h =
    let heads : x ≡ y = ground arith in
    let tails : xs ≡ ys = same_eq xs ys (ground arith) in rw (heads, tails) refl

pub apart : (a u v : Uri) → same a u ≡ false → same u v ≡ true → same a v ≡ false
apart a u v h k = ap (same a) (sym (same_eq u v k)) ∙ h

-- No key stands twice.
abbrev pub Distinct : Entries → Type 0
Distinct [] = Unit {0}
Distinct (e ∷ es) = (find es e.0 ≡ none) × Distinct es

pub find-assign :
    (es : Entries) (u : Uri) (c : Creator) (v : Uri)
    → find (assign es u c) v ≡ (if same u v then some c else find es v)
unfolding find assign
find-assign [] u c v = refl
find-assign (e ∷ es) u c v = elim (Bool-cases (same e.0 u)) [
  | inl here ↦ rw (here, same_eq e.0 u here) (ground arith)
  | inr other ↦ rw (other, find-assign es u c v) (ground (arith, apart e.0 u v other))
]

taken :
    (u v : Uri) (c : Creator) (es : Entries)
    → find es u ≡ none
    → find es v ≡ (if same u v then none else if same u v then some c else find es v)
taken u v c es h = elim (Bool-cases (same u v)) [
  | inl eq_ ↦ rw (eq_, sym (same_eq u v eq_), h) refl
  | inr ne ↦ rw ne refl
]

pub find-erase :
    (es : Entries) (u v : Uri)
    → Distinct es
    → find (erase es u) v ≡ (if same u v then none else find es v)
unfolding find erase
find-erase [] u v d = ground arith
find-erase (e ∷ es) u v d = elim (Bool-cases (same e.0 u)) [
  | inl here ↦
      rw (here, same_eq e.0 u here)
        (taken u v e.1 es (ap (find es) (sym (same_eq e.0 u here)) ∙ d.0))
  | inr other ↦ rw (other, find-erase es u v d.1) (ground (arith, apart e.0 u v other))
]

find-none :
    (e : Uri × Creator) (es : Entries) (u : Uri)
    → find (e ∷ es) u ≡ none
    → (same e.0 u ≡ false) × (find es u ≡ none)
unfolding find
find-none e es u h = go (same e.0 u) h
  where
    go : (b : Bool) → (if b then some e.1 else find es u) ≡ none → (b ≡ false) × (find es u ≡ none)
    go true k = cc
    go false k = (refl, k)

pub find-append :
    (es : Entries) (u : Uri) (c : Creator) (v : Uri)
    → find es u ≡ none
    → find (es ++ (u, c) ∷ []) v ≡ (if same u v then some c else find es v)
unfolding find
find-append [] u c v h = refl
find-append (e ∷ es) u c v h =
    let (other, gone) = find-none e es u h in
    rw (find-append es u c v gone) (ground (arith, apart e.0 u v other))

-- A key that is not there is not there after the erasure of another, and the erased one is gone.
pub erase-Distinct : (es : Entries) (u : Uri) → Distinct es → Distinct (erase es u)
unfolding erase
erase-Distinct [] u d = tt
erase-Distinct (e ∷ es) u d = elim (Bool-cases (same e.0 u)) [
  | inl here ↦ rw here d.1
  | inr other ↦ rw other (find-erase es u e.0 d.1 ∙ rw d.0 (ground arith), erase-Distinct es u d.1)
]

pub append-Distinct :
    (es : Entries) (u : Uri) (c : Creator)
    → Distinct es
    → find es u ≡ none
    → Distinct (es ++ (u, c) ∷ [])
append-Distinct [] u c d h = unfold find in (refl, tt)
append-Distinct (e ∷ es) u c d h =
    let (other, gone) = find-none e es u h in
    (
      find-append es u c e.0 gone ∙ elim (Bool-cases (same u e.0)) [
        | inl k ↦ cc (sym other ∙ ap (same e.0) (same_eq u e.0 k), same_refl e.0)
        | inr k ↦ rw (k, d.0) refl
      ],
      append-Distinct es u c d.1 gone,
    )

pub assign-Distinct :
    (es : Entries) (u : Uri) (c : Creator) → Distinct es → Distinct (assign es u c)
unfolding assign
assign-Distinct [] u c d = unfold find in (refl, tt)
assign-Distinct (e ∷ es) u c d = elim (Bool-cases (same e.0 u)) [
  | inl here ↦ rw here (ap (find es) (sym (same_eq e.0 u here)) ∙ d.0, d.1)
  | inr other ↦ rw other (
    find-assign es u c e.0 ∙ elim (Bool-cases (same u e.0)) [
      | inl k ↦ cc (sym other ∙ ap (same e.0) (same_eq u e.0 k), same_refl e.0)
      | inr k ↦ rw (k, d.0) refl
    ],
    assign-Distinct es u c d.1,
  )
]
