-- ===== src/Log/Fitting.antt =====
-- How the loops of `init` take the pattern of a list of items apart.
use mnser.Common.{
  ℕ, zero, suc, ◌<◌, List, [], ◌∷◌, ◌++◌, Bool, true, false, not, ◌||◌, some, ◌==◌, length,
}
use mnser.Common.{
  ◌≡◌, refl, ap, ◌∙◌, arith, Bool-cases, inl, inr, append_assoc, append-nil, length-append,
}
use mnser.Common.Text.{Text, is_empty}
use mnser.Log.{
  FormatItem, message, level_name, elapse_ms, name, thread_num, new_line, date_time, file_name,
  line_num, tab, fiber_num, thread_label, str,
}
use mnser.Log.Scanning.{has_no, ends_name, scan_plain, scan_braces, parse_literal}
use mnser.Log.Formatter.{is_alpha, scan_name, Part, flush, parse, item_of, make_item, make_items}

-- The letter of an item that has nothing but a letter.
abbrev pub letter : FormatItem → ℕ
letter message = b'm'
letter level_name = b'p'
letter elapse_ms = b'r'
letter name = b'c'
letter thread_num = b't'
letter new_line = b'n'
letter file_name = b'f'
letter line_num = b'l'
letter tab = b'T'
letter fiber_num = b'F'
letter thread_label = b'N'
letter (date_time f) = b'd'
letter (str s) = 0

abbrev pub is_plain : FormatItem → Bool
is_plain (date_time f) = false
is_plain (str s) = false
is_plain _ = true

-- The pattern for an item.
abbrev pub show : FormatItem → Text
show (date_time f) = b'%' ∷ b'd' ∷ b'{' ∷ (f ++ b'}' ∷ [])
show (str s) = s
show it = b'%' ∷ letter it ∷ []

abbrev pub show_all : List FormatItem → Text
show_all [] = []
show_all (it ∷ items) = show it ++ show_all items

abbrev pub starts_literal : List FormatItem → Bool
starts_literal (str s ∷ items) = true
starts_literal _ = false

-- A literal text is not empty, has no `%` and is not followed by another. The format of a time is
-- not empty and has no `}`. What follows a letter cannot be taken for a part of it.
abbrev pub Fits : List FormatItem → Type 0
Fits [] = Unit {0}
Fits (str s ∷ items) =
    (is_empty s ≡ false) × (has_no b'%' s ≡ true) × (starts_literal items ≡ false) × Fits items
Fits (date_time f ∷ items) = (is_empty f ≡ false) × (has_no b'}' f ≡ true) × Fits items
Fits (it ∷ items) = (ends_name (show_all items) ≡ true) × Fits items

abbrev pub part_of : FormatItem → Part
part_of (date_time f) = record { text = b'd' ∷ []; fmt = f; is_format = true }
part_of (str s) = record { text = s; fmt = []; is_format = false }
part_of it = record { text = letter it ∷ []; fmt = []; is_format = true }

abbrev pub parts_of : List FormatItem → List Part
parts_of [] = []
parts_of (it ∷ items) = part_of it ∷ parts_of items

-- What `parse` finds in the pattern of these items.
abbrev pub Parses : List FormatItem → Type 0
Parses items =
    (n : ℕ) (acc : Text)
    → length (show_all items) < n
    → (is_empty acc || not (starts_literal items)) ≡ true
    → parse n (show_all items) acc ≡ some (flush acc ++ parts_of items, false)

parse_plain :
    (c : ℕ) (r acc : Text) (parts : List Part) (n : ℕ)
    → is_alpha c ≡ true
    → ends_name r ≡ true
    → parse n r [] ≡ some (parts, false)
    → parse (suc n) (b'%' ∷ c ∷ r) acc
      ≡ some (flush acc ++ record { text = c ∷ []; fmt = []; is_format = true } ∷ parts, false)
unfolding parse
parse_plain c r acc parts n h k e = elim (Bool-cases (c == b'%')) [
  | inl percent ↦ absurd (ground arith)
  | inr other ↦
      rw
        (
          other,
          scan_plain c r h k,
          e,
          append_assoc (flush acc) (record { text = c ∷ []; fmt = []; is_format = true } ∷ [])
              parts,
        )
        refl
]

plain_fits :
    (c : ℕ) (items : List FormatItem) (n : ℕ) (acc : Text)
    → is_alpha c ≡ true
    → ends_name (show_all items) ≡ true
    → Parses items
    → suc (suc (length (show_all items))) < n
    → parse n (b'%' ∷ c ∷ show_all items) acc
      ≡ some (
        flush acc ++ record { text = c ∷ []; fmt = []; is_format = true } ∷ parts_of items,
        false,
      )
plain_fits c items zero acc h k ih fuel = absurd (omega arith)
plain_fits c items (suc n) acc h k ih fuel =
    parse_plain c (show_all items) acc (parts_of items) n h k (ih n [] (omega arith) refl)

time_fits :
    (f : Text) (items : List FormatItem) (n : ℕ) (acc : Text)
    → has_no b'}' f ≡ true
    → Parses items
    → length (show (date_time f) ++ show_all items) < n
    → parse n (show (date_time f) ++ show_all items) acc
      ≡ some (
        flush acc ++ record { text = b'd' ∷ []; fmt = f; is_format = true } ∷ parts_of items,
        false,
      )
unfolding parse scan_name
time_fits f items zero acc h ih fuel = absurd (omega arith)
time_fits f items (suc n) acc h ih fuel =
    let room : length (show_all items) < n =
      omega (arith, length-append (f ++ b'}' ∷ []) (show_all items), length-append f (b'}' ∷ [])) in
    rw
      (
        append_assoc f (b'}' ∷ []) (show_all items),
        scan_braces (b'd' ∷ b'{' ∷ (f ++ b'}' ∷ show_all items)) (b'd' ∷ []) [] f (show_all items)
            h,
        ih n [] room refl,
        append_assoc (flush acc) (record { text = b'd' ∷ []; fmt = f; is_format = true } ∷ [])
            (parts_of items),
      )
      refl

literal_fits :
    (s : Text) (items : List FormatItem) (n : ℕ)
    → is_empty s ≡ false
    → has_no b'%' s ≡ true
    → starts_literal items ≡ false
    → Parses items
    → length (s ++ show_all items) < n
    → parse n (s ++ show_all items) []
      ≡ some (record { text = s; fmt = []; is_format = false } ∷ parts_of items, false)
literal_fits s items n full clean next ih fuel =
    let (m, room, e) = parse_literal n s (show_all items) [] fuel clean in
    e ∙ ih m s room (rw (next) (rw full refl)) ∙ ap (λ p. some (p ++ parts_of items, false)) flushed
  where
    flushed : flush s ≡ record { text = s; fmt = []; is_format = false } ∷ []
    flushed = rw full refl

pub fits-parse : (items : List FormatItem) → Fits items → Parses items
unfolding parse
fits-parse [] fits zero acc fuel h = absurd (omega arith)
fits-parse [] fits (suc n) acc fuel h = rw (append-nil (flush acc)) refl
fits-parse (str s ∷ items) fits n [] fuel h =
    literal_fits s items n fits.0 fits.1 fits.2 (fits-parse items fits.3) fuel
fits-parse (str s ∷ items) fits n (c ∷ acc) fuel h = absurd (cc)
fits-parse (date_time f ∷ items) fits n acc fuel h =
    time_fits f items n acc fits.1 (fits-parse items fits.2) fuel
fits-parse (message ∷ items) fits n acc fuel h =
    plain_fits (letter message) items n acc refl fits.0 (fits-parse items fits.1) fuel
fits-parse (level_name ∷ items) fits n acc fuel h =
    plain_fits (letter level_name) items n acc refl fits.0 (fits-parse items fits.1) fuel
fits-parse (elapse_ms ∷ items) fits n acc fuel h =
    plain_fits (letter elapse_ms) items n acc refl fits.0 (fits-parse items fits.1) fuel
fits-parse (name ∷ items) fits n acc fuel h =
    plain_fits (letter name) items n acc refl fits.0 (fits-parse items fits.1) fuel
fits-parse (thread_num ∷ items) fits n acc fuel h =
    plain_fits (letter thread_num) items n acc refl fits.0 (fits-parse items fits.1) fuel
fits-parse (new_line ∷ items) fits n acc fuel h =
    plain_fits (letter new_line) items n acc refl fits.0 (fits-parse items fits.1) fuel
fits-parse (file_name ∷ items) fits n acc fuel h =
    plain_fits (letter file_name) items n acc refl fits.0 (fits-parse items fits.1) fuel
fits-parse (line_num ∷ items) fits n acc fuel h =
    plain_fits (letter line_num) items n acc refl fits.0 (fits-parse items fits.1) fuel
fits-parse (tab ∷ items) fits n acc fuel h =
    plain_fits (letter tab) items n acc refl fits.0 (fits-parse items fits.1) fuel
fits-parse (fiber_num ∷ items) fits n acc fuel h =
    plain_fits (letter fiber_num) items n acc refl fits.0 (fits-parse items fits.1) fuel
fits-parse (thread_label ∷ items) fits n acc fuel h =
    plain_fits (letter thread_label) items n acc refl fits.0 (fits-parse items fits.1) fuel

pub make_items-parts :
    (items : List FormatItem) → Fits items → make_items (parts_of items) ≡ (items, false)
unfolding make_items make_item item_of
make_items-parts [] fits = refl
make_items-parts (str s ∷ items) fits = rw (make_items-parts items fits.3) refl
make_items-parts (date_time f ∷ items) fits = rw (fits.0, make_items-parts items fits.2) refl
make_items-parts (message ∷ items) fits = rw (make_items-parts items fits.1) refl
make_items-parts (level_name ∷ items) fits = rw (make_items-parts items fits.1) refl
make_items-parts (elapse_ms ∷ items) fits = rw (make_items-parts items fits.1) refl
make_items-parts (name ∷ items) fits = rw (make_items-parts items fits.1) refl
make_items-parts (thread_num ∷ items) fits = rw (make_items-parts items fits.1) refl
make_items-parts (new_line ∷ items) fits = rw (make_items-parts items fits.1) refl
make_items-parts (file_name ∷ items) fits = rw (make_items-parts items fits.1) refl
make_items-parts (line_num ∷ items) fits = rw (make_items-parts items fits.1) refl
make_items-parts (tab ∷ items) fits = rw (make_items-parts items fits.1) refl
make_items-parts (fiber_num ∷ items) fits = rw (make_items-parts items fits.1) refl
make_items-parts (thread_label ∷ items) fits = rw (make_items-parts items fits.1) refl
