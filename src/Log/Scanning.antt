-- ===== src/Log/Scanning.antt =====
-- The loops that take a pattern apart: that they end, and where they stop.
use mnser.Common.{
  ℕ, zero, suc, ◌+◌, ◌≤◌, ◌<◌, List, [], ◌∷◌, ◌++◌, Bool, true, false, not, ◌&&◌, ◌||◌, Option,
  some, ◌==◌, length,
}
use mnser.Common.{◌≡◌, refl, arith, Bool-cases, inl, inr, append_assoc, append-nil}
use mnser.Common.Text.{Text}
use mnser.Log.{FormatItem}
use mnser.Log.Formatter.{
  is_alpha, goes_on, scan_fmt, scan_name, Part, starts_percent, pattern_error, put_before, parse,
  init,
}

scan_fmt-rest : (all t fmt r : Text) → length (scan_fmt all t fmt r).rest ≤ length r
unfolding scan_fmt
scan_fmt-rest all t fmt [] = omega arith
scan_fmt-rest all t fmt (c ∷ r) = ground (arith, scan_fmt-rest all t (fmt ++ c ∷ []) r)

scan_name-rest : (all taken r : Text) → length (scan_name all taken r).rest ≤ length r
unfolding scan_name
scan_name-rest all taken [] = omega arith
scan_name-rest all taken (c ∷ r) =
    ground (arith, scan_name-rest all (taken ++ c ∷ []) r, scan_fmt-rest all taken [] r)

put_before-some :
    (parts : List Part) (e : Bool) (o : Option (List Part × Bool))
    → (x : List Part × Bool) × (o ≡ some x)
    → (x : List Part × Bool) × (put_before parts e o ≡ some x)
put_before-some parts e o (x, h) = ((parts ++ x.0, e || x.1), rw h refl)

-- One round for each character is enough.
parse_total : (n : ℕ) (r s : Text) → length r < n → (x : List Part × Bool) × (parse n r s ≡ some x)
unfolding parse
parse_total zero r s h = absurd (omega arith)
parse_total (suc n) [] s h = (_, refl)
parse_total (suc n) (c ∷ r) s h = elim (Bool-cases (c == b'%')) [
  | inr other ↦ rw other (parse_total n r (s ++ c ∷ []) (omega arith))
  | inl percent ↦ elim (Bool-cases (starts_percent r)) [
    | inl twice ↦ rw (percent, twice) (parse_total n r (s ++ b'%' ∷ []) (omega arith))
    | inr once ↦ elim (Bool-cases (scan_name r [] r).in_braces) [
      | inl fails ↦
          rw (percent, once, fails)
            (put_before-some (pattern_error ∷ []) true (parse n r s)
              (parse_total n r s (omega arith)))
      | inr passes ↦
          rw (percent, once, passes)
            (put_before-some _ false (parse n (scan_name r [] r).rest [])
              (parse_total n (scan_name r [] r).rest [] (omega (arith, scan_name-rest r [] r))))
    ]
  ]
]

-- `init` ends on every pattern.
pub init_total : (pattern : Text) → (r : List FormatItem × Bool) × (init pattern ≡ some r)
unfolding init
init_total pattern =
    let (x, e) = parse_total (length pattern + 1) pattern [] (omega arith) in rw (e, init) (_, refl)

abbrev pub has_no : ℕ → Text → Bool
has_no c [] = true
has_no c (d ∷ s) = not (d == c) && has_no c s

abbrev pub ends_name : Text → Bool
ends_name [] = true
ends_name (c ∷ r) = not (goes_on c)

pub scan_plain :
    (c : ℕ) (r : Text)
    → is_alpha c ≡ true
    → ends_name r ≡ true
    → scan_name (c ∷ r) [] (c ∷ r) ≡ record { tstr = c ∷ []; fmt = []; in_braces = false; rest = r }
unfolding scan_name
scan_plain c [] h k = ground arith
scan_plain c (d ∷ r) h k = ground arith

pub scan_braces :
    (all t acc f r : Text)
    → has_no b'}' f ≡ true
    → scan_fmt all t acc (f ++ b'}' ∷ r)
      ≡ record { tstr = t; fmt = acc ++ f; in_braces = false; rest = r }
unfolding scan_fmt
scan_braces all t acc [] r h = rw (append-nil acc) refl
scan_braces all t acc (c ∷ f) r h = elim (Bool-cases (c == b'}')) [
  | inl brace ↦ absurd (ground arith)
  | inr other ↦
      rw (other, scan_braces all t (acc ++ c ∷ []) f r (ground arith), append_assoc acc (c ∷ []) f)
        refl
]

pub parse_literal :
    (n : ℕ) (s r acc : Text)
    → length (s ++ r) < n
    → has_no b'%' s ≡ true
    → (m : ℕ) × (length r < m) × (parse n (s ++ r) acc ≡ parse m r (acc ++ s))
unfolding parse
parse_literal n [] r acc h k = (n, h, rw (append-nil acc) refl)
parse_literal zero (c ∷ s) r acc h k = absurd (omega arith)
parse_literal (suc n) (c ∷ s) r acc h k = elim (Bool-cases (c == b'%')) [
  | inl percent ↦ absurd (ground arith)
  | inr other ↦
      let (m, fuel, e) = parse_literal n s r (acc ++ c ∷ []) (omega arith) (ground arith) in
      (m, fuel, rw (other, e, append_assoc acc (c ∷ []) s) refl)
]
