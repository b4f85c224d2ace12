-- ===== src/Address/Paths.antt =====
-- The paths of UNIX addresses.
use mnser.Common.{
  List, ℕ, zero, suc, ◌+◌, ◌-◌, ◌^◌, ◌<◌, ◌≤◌, ◌≡◌, refl, ap, ◌∙◌, arith, [], ◌∷◌, ◌++◌,
  append_assoc, Option, none, some, ltb, ◌==◌, false, length, take, replicate, length-append,
  length-replicate, length-take, All, ◌⊎◌, inl, inr, Bool-cases, ltb→lt, lt→ltb,
}
use mnser.Common.Segments.{take_all}
use mnser.Common.Text.{Text, codes}
use mnser.Address.{UnixAddress, starts_nul, copied_length, copied, new_unix, c_string, get_path}

-- The characters of a path on disk.
unfoldable pub NoNul : Text → Type 0
NoNul s = All (λ c. 0 < c) s

-- A path of `size` bytes is refused where they are more than 108; otherwise they are in the
-- address, whose path then reads `shown`.
unfoldable pub Kept : ℕ → Text → Option UnixAddress → Type 0
Kept size shown o =
    ((o ≡ none) × (108 < size))
    ⊎ ((size ≤ 108)
        × ((a : UnixAddress) × (o ≡ some a)
            × (get_path a ≡ shown)
            × (a.length ≡ size + 2)
            × (length a.sun_path ≡ 108)))

c_string-append : (s t : Text) → NoNul s → c_string (s ++ 0 ∷ t) ≡ s
unfolding c_string NoNul
c_string-append [] t h = refl
c_string-append (c ∷ s) t h =
    let off : (c == 0) ≡ false = ground (arith, h.0) in
    rw off (ap (◌∷◌ c) (c_string-append s t h.1))

take-append : (s t : Text) (n : ℕ) → n ≡ length s → take n (s ++ t) ≡ s
take-append [] t zero e = refl
take-append [] t (suc n) e = absurd (omega arith)
take-append (c ∷ s) t zero e = absurd (omega arith)
take-append (c ∷ s) t (suc n) e = ap (◌∷◌ c) (take-append s t n (omega arith))

length-copied :
    (path : Text) (size : ℕ)
    → size ≤ length path + 1
    → size ≤ 108
    → length (copied size path).sun_path ≡ 108
unfolding copied
length-copied path size l h = omega (
  arith,
  length-append (take size (path ++ 0 ∷ [])) (replicate (108 - size) 0),
  length-take size (path ++ 0 ∷ []),
  length-append path (0 ∷ []),
  length-replicate {A = ℕ} (108 - size) 0,
)

new_unix-Kept :
    (path shown : Text) (size : ℕ)
    → copied_length path ≡ size
    → size ≤ length path + 1
    → get_path (copied size path) ≡ shown
    → Kept size shown (new_unix path)
unfolding new_unix Kept
new_unix-Kept path shown size e l g = elim (Bool-cases (ltb 108 size)) [
  | inl h ↦ inl (rw (e, h) refl, ltb→lt 108 size h)
  | inr h ↦
      let fits : size ≤ 108 = ground arith in
      inr (
        fits,
        (
          copied size path,
          (rw (e, h) refl),
          g,
          (unfold copied in refl),
          length-copied path size l fits,
        ),
      )
]

named_length :
    (c : ℕ) (name : Text)
    → 0 < c
    → length name + 2 < 2 ^ 32
    → copied_length (c ∷ name) ≡ length name + 2
unfolding copied_length starts_nul
named_length c name h l = let off : (c == 0) ≡ false = ground (arith, h) in rw off (omega arith)

abstract_length :
    (name : Text) → length name + 2 < 2 ^ 32 → copied_length (0 ∷ name) ≡ length name + 1
unfolding copied_length starts_nul
abstract_length name l = omega arith

plain_path :
    (a : UnixAddress) (c : ℕ) (s : Text)
    → 0 < c
    → a.sun_path ≡ c ∷ s
    → get_path a ≡ c_string (c ∷ s)
unfolding get_path starts_nul
plain_path a c s h e =
    let off : (c == 0) ≡ false = ground (arith, h) in
    elim (Bool-cases (ltb 2 a.length)) [ inl l ↦ rw (e, l, off) refl | inr l ↦ rw (e, l) refl ]

abstract_path :
    (a : UnixAddress) (s : Text)
    → 2 < a.length
    → a.sun_path ≡ 0 ∷ s
    → get_path a ≡ codes "\\0" ++ take (a.length - 2 - 1) s
unfolding get_path starts_nul
abstract_path a s h e = rw (e, lt→ltb 2 a.length h) refl

get_path-named :
    (c : ℕ) (name : Text)
    → 0 < c
    → NoNul name
    → get_path (copied (length name + 2) (c ∷ name)) ≡ c ∷ name
unfolding copied
get_path-named c name h k =
    let rest : List ℕ = replicate (108 - (length name + 2)) 0 in
    let all : take (length name + 2) ((c ∷ name) ++ 0 ∷ []) ≡ (c ∷ name) ++ 0 ∷ [] =
      take_all ((c ∷ name) ++ 0 ∷ []) (length name + 2)
        (omega (arith, length-append name (0 ∷ []))) in
    plain_path (copied (length name + 2) (c ∷ name)) c (name ++ 0 ∷ rest) h
      (ap (λ t. t ++ rest) all ∙ append_assoc (c ∷ name) (0 ∷ []) rest)
    ∙ c_string-append (c ∷ name) rest (unfold NoNul in (h, k))

get_path-abstract :
    (name : Text) → get_path (copied (length name + 1) (0 ∷ name)) ≡ codes "\\0" ++ name
unfolding copied
get_path-abstract name =
    let rest : List ℕ = replicate (108 - (length name + 1)) 0 in
    let all : take (length name + 1) ((0 ∷ name) ++ 0 ∷ []) ≡ 0 ∷ name =
      take-append (0 ∷ name) (0 ∷ []) (length name + 1) (omega arith) in
    abstract_path (copied (length name + 1) (0 ∷ name)) (name ++ rest) (omega arith)
      (ap (λ t. t ++ rest) all)
    ∙ ap (codes "\\0" ++◌) (take-append name rest (length name + 1 + 2 - 2 - 1) (omega arith))

-- Of a path without a NUL, after its first character too, `getPath` gives the path that the
-- constructor was given, and of an abstract one (with a NUL in front) `\0` and the name; the
-- constructor refuses a path that does not fit, with its closing NUL where it has one.
pub new_unix_lem :
    (c : ℕ) (name : Text)
    → 0 < c
    → NoNul name
    → length name + 2 < 2 ^ 32
    → Kept (length name + 2) (c ∷ name) (new_unix (c ∷ name))
      × Kept (length name + 1) (codes "\\0" ++ name) (new_unix (0 ∷ name))
new_unix_lem c name h k l = (
  new_unix-Kept (c ∷ name) (c ∷ name) (length name + 2) (named_length c name h l) (omega arith)
      (get_path-named c name h k),
  new_unix-Kept (0 ∷ name) (codes "\\0" ++ name) (length name + 1) (abstract_length name l)
      (omega arith) (get_path-abstract name),
)
