-- ===== src/Log/Formatter.antt =====
-- `LogFormatter::init` of src/log.cpp: how a pattern is taken apart.
use mnser.Common.{
  ℕ, zero, suc, ◌+◌, List, [], ◌∷◌, ◌++◌, Bool, true, false, not, ◌&&◌, ◌||◌, Option, none, some,
  leb, ◌==◌, if◌then◌else◌, length,
}
use mnser.Common.Text.{Text, codes, is_empty}
use mnser.Log.{
  FormatItem, message, level_name, elapse_ms, name, thread_num, new_line, file_name, line_num, tab,
  fiber_num, thread_label, str, date_item,
}

-- `isalpha`, in the locale of C.
abbrev pub is_alpha : ℕ → Bool
is_alpha c = leb b'A' c && leb c b'Z' || leb b'a' c && leb c b'z'

-- The characters that do not end a format's letters.
abbrev pub goes_on : ℕ → Bool
goes_on c = is_alpha c || c == b'{' || c == b'}'

-- Where the inner loop stops: `tstr`, `fmt`, whether `fmt_status` is 1, and the text from `j` on.
pub record Scanned : Type 0 where
  pub tstr : Text
  pub fmt : Text
  pub in_braces : Bool
  pub rest : Text

-- The inner loop while `fmt_status` is 1; `all` is the pattern behind the `%`.
unfoldable pub scan_fmt : Text → Text → Text → Text → Scanned
scan_fmt all tstr fmt [] = record {
  tstr = if is_empty tstr && not (is_empty fmt) then all else tstr;
  fmt = [];
  in_braces = true;
  rest = [];
}
scan_fmt all tstr fmt (c ∷ r) =
    let more = scan_fmt all tstr (fmt ++ c ∷ []) r in
    if c == b'}' then record { tstr = tstr; fmt = fmt; in_braces = false; rest = r } else more

-- The inner loop while `fmt_status` is 0; `taken` is what lies between the `%` and `j`.
unfoldable pub scan_name : Text → Text → Text → Scanned
scan_name all taken [] = record { tstr = all; fmt = []; in_braces = false; rest = [] }
scan_name all taken (c ∷ r) =
    let more = scan_name all (taken ++ c ∷ []) r in
    if not (goes_on c)
    then record { tstr = taken; fmt = []; in_braces = false; rest = c ∷ r }
    else if c == b'{'
    then scan_fmt all taken [] r
    else more

-- An entry of `vec`.
pub record Part : Type 0 where
  pub text : Text
  pub fmt : Text
  pub is_format : Bool

abbrev pub flush : Text → List Part
flush s = if is_empty s then [] else record { text = s; fmt = []; is_format = false } ∷ []

abbrev pub starts_percent : Text → Bool
starts_percent [] = false
starts_percent (c ∷ r) = c == b'%'

abbrev pub pattern_error : Part
pattern_error = record { text = codes "<<pattern-error>>"; fmt = []; is_format = false }

abbrev pub put_before : List Part → Bool → Option (List Part × Bool) → Option (List Part × Bool)
put_before parts e none = none
put_before parts e (some (more, f)) = some (parts ++ more, e || f)

-- The outer loop, from the text at `i` on: what it appends to `vec`, and whether it sets `m_error`.
-- The fuel counts rounds; `none` means that it ran out.
unfoldable pub parse : ℕ → Text → Text → Option (List Part × Bool)
parse zero r s = none
parse (suc n) [] s = some (flush s, false)
parse (suc n) (c ∷ r) s =
    let literal = parse n r (s ++ c ∷ []) in
    let percent = parse n r (s ++ b'%' ∷ []) in
    let next = scan_name r [] r in
    let failed = put_before (pattern_error ∷ []) true (parse n r s) in
    let passed =
      put_before (flush s ++ record { text = next.tstr; fmt = next.fmt; is_format = true } ∷ [])
        false (parse n next.rest []) in
    if not (c == b'%')
    then literal
    else if starts_percent r
    then percent
    else if next.in_braces
    then failed
    else passed

-- `map_s_items`; a `none` is the end of the map.
unfoldable pub item_of : Text → Text → Option FormatItem
item_of (c ∷ []) fmt =
    if c == b'm'
    then some message
    else if c == b'p'
    then some level_name
    else if c == b'r'
    then some elapse_ms
    else if c == b'c'
    then some name
    else if c == b't'
    then some thread_num
    else if c == b'n'
    then some new_line
    else if c == b'd'
    then some (date_item fmt)
    else if c == b'f'
    then some file_name
    else if c == b'l'
    then some line_num
    else if c == b'T'
    then some tab
    else if c == b'F'
    then some fiber_num
    else if c == b'N'
    then some thread_label
    else none
item_of _ fmt = none

unfoldable pub error_format : Text → FormatItem
error_format s = str (codes "<<error-format" ++ s ++ codes ">>")

-- The item for a part, and whether it sets `m_error`.
unfoldable pub make_item : Part → FormatItem × Bool
make_item p =
    if not p.is_format
    then (str p.text, false)
    else elim (item_of p.text p.fmt) [ none ↦ (error_format p.text, true) | some it ↦ (it, false) ]

unfoldable pub make_items : List Part → List FormatItem × Bool
make_items [] = ([], false)
make_items (p ∷ parts) =
    ((make_item p).0 ∷ (make_items parts).0, (make_item p).1 || (make_items parts).1)

-- `init`: `m_items` and `m_error`.
unfoldable pub init : Text → Option (List FormatItem × Bool)
init pattern = elim (parse (length pattern + 1) pattern []) [
  | none ↦ none
  | some (parts, e) ↦ some ((make_items parts).0, e || (make_items parts).1)
]
