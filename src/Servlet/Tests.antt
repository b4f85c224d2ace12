-- ===== src/Servlet/Tests.antt =====
-- A dispatcher with a path and two patterns.
use mnser.Common.{[], ◌∷◌, Bool, false, if◌then◌else◌, some, ◌≡◌, refl}
use mnser.Servlet.{
  list_all, assign, handle, Uri, same, held, new_of, hold_servlet_creator, servlet_creator,
  ServletDispatch, find, erase, first_match, get_servlet, get_glob_servlet, get_matched_servlet,
  add_glob_servlet,
}
use mnser.Servlet.Dispatch.{
  Inv, add_glob_creator, perform, perform_lem, Matched, get_matched_servlet_lem,
}

-- A matcher that looks at the first character only.
abbrev first_letter : Uri → Uri → Bool
first_letter (p ∷ ps) (x ∷ xs) = same (p ∷ []) (x ∷ [])
first_letter ps xs = false

abbrev dispatch : ServletDispatch
dispatch = record {
  datas = (1 ∷ 2 ∷ [], hold_servlet_creator (held 5)) ∷ [];
  globs = (1 ∷ 9 ∷ [], hold_servlet_creator (held 6)) ∷ (1 ∷ [], servlet_creator 7) ∷ [];
  default_servlet = held 0;
}

listed :
    list_all dispatch.globs ((1 ∷ [], servlet_creator 2) ∷ [])
    ≡ (1 ∷ [], servlet_creator 7) ∷ (1 ∷ 9 ∷ [], hold_servlet_creator (held 6)) ∷ []
unfolding list_all assign
listed = refl

handled : handle first_letter dispatch (1 ∷ 2 ∷ []) ≡ (held 5, 0)
unfolding get_matched_servlet find
handled = refl

dispatch-Inv : Inv dispatch
unfolding find
dispatch-Inv = record { paths = (refl, tt); patterns = (refl, (refl, tt)) }

exact : get_matched_servlet first_letter dispatch (1 ∷ 2 ∷ []) ≡ held 5
unfolding get_matched_servlet find
exact = refl

-- The pattern added again goes behind the other.
readded :
    get_matched_servlet first_letter (add_glob_servlet dispatch (1 ∷ 9 ∷ []) (held 8)) (1 ∷ [])
    ≡ new_of 7
unfolding get_matched_servlet add_glob_servlet erase first_match find
readded = refl

perform_example :
    let d = perform dispatch (add_glob_creator (1 ∷ []) (servlet_creator 3)) in
    Inv d
    × ((v : Uri) → get_servlet d v ≡ get_servlet dispatch v)
    × ((v : Uri)
        → get_glob_servlet d v
          ≡ (if same (1 ∷ []) v then some (new_of 3) else get_glob_servlet dispatch v))
perform_example = perform_lem dispatch (add_glob_creator (1 ∷ []) (servlet_creator 3)) dispatch-Inv

get_matched_servlet_example :
    Matched first_letter dispatch (4 ∷ []) (get_matched_servlet first_letter dispatch (4 ∷ []))
get_matched_servlet_example = get_matched_servlet_lem first_letter dispatch (4 ∷ [])
