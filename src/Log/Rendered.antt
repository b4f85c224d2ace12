-- ===== src/Log/Rendered.antt =====
-- Patterns and the items that they stand for.
use mnser.Common.{ℕ, zero, suc, ◌+◌, ◌<◌, List, [], ◌∷◌, ◌++◌, true, false, some, length}
use mnser.Common.{◌≡◌, refl, arith}
use mnser.Common.Text.{Text, codes}
use mnser.Log.{FormatItem, str}
use mnser.Log.Scanning.{has_no, parse_literal}
use mnser.Log.Formatter.{
  scan_name, flush, parse, item_of, error_format, make_item, make_items, init,
}
use mnser.Log.Fitting.{Fits, show_all, fits-parse, make_items-parts}

-- A formatter for the pattern of a list of items has those items, in their order, and no error, if
-- the literal texts among them are not empty, have no `%` and do not follow one another, the formats
-- of times are not empty and have no `}`, and no text behind a letter could be part of a name.
pub init-show_all :
    (items : List FormatItem) → Fits items → init (show_all items) ≡ some (items, false)
unfolding init
init-show_all items fits =
    rw
      (
        fits-parse items fits (length (show_all items) + 1) [] (omega arith) refl,
        init,
        make_items-parts items fits,
      )
      refl

flush-percent :
    (s : Text)
    → flush (s ++ b'%' ∷ []) ≡ record { text = s ++ b'%' ∷ []; fmt = []; is_format = false } ∷ []
flush-percent [] = refl
flush-percent (c ∷ s) = refl

two_percents :
    (m : ℕ) (s : Text)
    → 2 < m
    → parse m (b'%' ∷ b'%' ∷ []) s
      ≡ some (
        record { text = s ++ b'%' ∷ []; fmt = []; is_format = false }
            ∷ record { text = []; fmt = []; is_format = true }
            ∷ [],
        false,
      )
unfolding parse scan_name
two_percents zero s h = absurd (omega arith)
two_percents (suc zero) s h = absurd (omega arith)
two_percents (suc (suc zero)) s h = absurd (omega arith)
two_percents (suc (suc (suc m))) s h = rw (flush-percent s) refl

-- The pattern is a text with no `%` and then `%%`: the formatter has an error, and puts out the
-- text, a `%`, and the text for a format that is not known.
pub init-percent :
    (s : Text)
    → has_no b'%' s ≡ true
    → init (s ++ b'%' ∷ b'%' ∷ [])
      ≡ some (str (s ++ b'%' ∷ []) ∷ str (codes "<<error-format>>") ∷ [], true)
unfolding init parse scan_name make_items make_item item_of error_format
init-percent s clean =
    let (m, room, e) =
      parse_literal (length (s ++ b'%' ∷ b'%' ∷ []) + 1) s (b'%' ∷ b'%' ∷ []) [] (omega arith)
        clean in
    rw (e, init, two_percents m s room) refl
