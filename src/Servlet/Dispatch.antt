-- ===== src/Servlet/Dispatch.antt =====
-- Which servlet a path gets, and what the calls that add and remove servlets change about it.
use mnser.Common.{[], ◌∷◌, ◌++◌, Bool, true, false, if◌then◌else◌, Option, none, some, All}
use mnser.Common.{◌≡◌, ◌⊎◌, refl, ap, ◌∙◌, Bool-cases, Option-cases, inl, inr}
use mnser.Servlet.{
  Uri, same, Servlet, Creator, get, Entries, ServletDispatch, find, erase, add_servlet_creator,
  add_glob_servlet_creator, del_servlet, del_glob_servlet, got, get_servlet, get_glob_servlet,
  first_match, get_matched_servlet, add_servlet, add_glob_servlet, hold_servlet_creator,
}
use mnser.Servlet.Maps.{
  same_refl, Distinct, find-assign, find-erase, find-append, erase-Distinct, append-Distinct,
  assign-Distinct,
}

-- No path and no pattern is registered twice.
pub record Inv (d : ServletDispatch) : Type 0 where
  pub paths : Distinct d.datas
  pub patterns : Distinct d.globs

pub data Change : Type 0 where
  add_creator add_glob_creator : Uri → Creator → Change
  add add_glob : Uri → Servlet → Change
  del del_glob : Uri → Change

-- The calls that change the dispatcher.
abbrev pub perform : ServletDispatch → Change → ServletDispatch
perform d (add_creator u c) = add_servlet_creator d u c
perform d (add_glob_creator u c) = add_glob_servlet_creator d u c
perform d (add u s) = add_servlet d u s
perform d (add_glob u s) = add_glob_servlet d u s
perform d (del u) = del_servlet d u
perform d (del_glob u) = del_glob_servlet d u

-- What `getServlet` returns after a change.
abbrev pub expected : ServletDispatch → Change → Uri → Option Servlet
expected d (add_creator u c) v = if same u v then some (get c) else get_servlet d v
expected d (add_glob_creator u c) v = get_servlet d v
expected d (add u s) v = if same u v then some s else get_servlet d v
expected d (add_glob u s) v = get_servlet d v
expected d (del u) v = if same u v then none else get_servlet d v
expected d (del_glob u) v = get_servlet d v

-- What `getGlobServlet` returns after a change.
abbrev pub expected_glob : ServletDispatch → Change → Uri → Option Servlet
expected_glob d (add_creator u c) v = get_glob_servlet d v
expected_glob d (add_glob_creator u c) v = if same u v then some (get c) else get_glob_servlet d v
expected_glob d (add u s) v = get_glob_servlet d v
expected_glob d (add_glob u s) v = if same u v then some s else get_glob_servlet d v
expected_glob d (del u) v = get_glob_servlet d v
expected_glob d (del_glob u) v = if same u v then none else get_glob_servlet d v

got-if :
    (b : Bool) (c : Option Creator) (o : Option Creator)
    → got (if b then c else o) ≡ (if b then got c else got o)
got-if true c o = refl
got-if false c o = refl

twice :
    (b : Bool) (c : Creator) (o : Option Creator)
    → (if b then some c else if b then none else o) ≡ (if b then some c else o)
twice true c o = refl
twice false c o = refl

-- A pattern that is added goes behind the others, and an entry that it had is gone.
globs-added :
    (es : Entries) (u : Uri) (c : Creator)
    → Distinct es
    → Distinct (erase es u ++ (u, c) ∷ [])
      × ((v : Uri)
          → got (find (erase es u ++ (u, c) ∷ []) v)
            ≡ (if same u v then some (get c) else got (find es v)))
globs-added es u c distinct =
    let gone : find (erase es u) u ≡ none =
      find-erase es u u distinct ∙ ap (λ b. if b then none else find es u) (same_refl u) in
    (
      append-Distinct (erase es u) u c (erase-Distinct es u distinct) gone,
      λ v.
          ap got (
            find-append (erase es u) u c v gone
            ∙ (ap (λ o. if same u v then some c else o) (find-erase es u v distinct)
                ∙ twice (same u v) c (find es v)))
          ∙ got-if (same u v) (some c) (find es v),
    )

-- Each call that adds or deletes a servlet or a pattern keeps every path and pattern registered
-- once, and changes what is found under that path or pattern, and nothing else.
pub perform_lem :
    (d : ServletDispatch) (change : Change)
    → Inv d
    → Inv (perform d change)
      × ((v : Uri) → get_servlet (perform d change) v ≡ expected d change v)
      × ((v : Uri) → get_glob_servlet (perform d change) v ≡ expected_glob d change v)
unfolding add_servlet_creator add_glob_servlet_creator add_servlet add_glob_servlet del_servlet
    del_glob_servlet get_servlet get_glob_servlet
perform_lem d (add_creator u c) i = (
  record { paths = assign-Distinct d.datas u c i.paths; patterns = i.patterns },
  λ v. ap got (find-assign d.datas u c v) ∙ got-if (same u v) _ _,
  λ v. refl,
)
perform_lem d (add_glob_creator u c) i =
    let (distinct, found) = globs-added d.globs u c i.patterns in
    (record { paths = i.paths; patterns = distinct }, λ v. refl, found)
perform_lem d (add u s) i = (
  record {
    paths = assign-Distinct d.datas u (hold_servlet_creator s) i.paths;
    patterns = i.patterns;
  },
  λ v. ap got (find-assign d.datas u (hold_servlet_creator s) v) ∙ got-if (same u v) _ _,
  λ v. refl,
)
perform_lem d (add_glob u s) i =
    let (distinct, found) = globs-added d.globs u (hold_servlet_creator s) i.patterns in
    (record { paths = i.paths; patterns = distinct }, λ v. refl, found)
perform_lem d (del u) i = (
  record { paths = erase-Distinct d.datas u i.paths; patterns = i.patterns },
  λ v. ap got (find-erase d.datas u v i.paths) ∙ got-if (same u v) _ _,
  λ v. refl,
)
perform_lem d (del_glob u) i = (
  record { paths = i.paths; patterns = erase-Distinct d.globs u i.patterns },
  λ v. refl,
  λ v. ap got (find-erase d.globs u v i.patterns) ∙ got-if (same u v) _ _,
)

-- The three ways in which a path gets its servlet.
pub data Matched (fnmatch : Uri → Uri → Bool) (d : ServletDispatch) (uri : Uri)
    : Servlet → Type 0 where
  exactly : (c : Creator) → find d.datas uri ≡ some c → Matched fnmatch d uri (get c)
  by_pattern :
      (before : Entries) (e : Uri × Creator) (after : Entries)
      → find d.datas uri ≡ none
      → d.globs ≡ before ++ e ∷ after
      → All (λ b. fnmatch b.0 uri ≡ false) before
      → fnmatch e.0 uri ≡ true
      → Matched fnmatch d uri (get e.1)
  by_default :
      find d.datas uri ≡ none
      → All (λ b. fnmatch b.0 uri ≡ false) d.globs
      → Matched fnmatch d uri d.default_servlet

-- Where the loop over the patterns stops.
pub record Stop (fnmatch : Uri → Uri → Bool) (es : Entries) (uri : Uri) : Type 0 where
  pub before : Entries
  pub e : Uri × Creator
  pub after : Entries
  pub split : es ≡ before ++ e ∷ after
  pub passed : All (λ b. fnmatch b.0 uri ≡ false) before
  pub matches : fnmatch e.0 uri ≡ true
  pub found : first_match fnmatch es uri ≡ some e.1

first_match_lem :
    (fnmatch : Uri → Uri → Bool) (es : Entries) (uri : Uri)
    → (first_match fnmatch es uri ≡ none) × All (λ b. fnmatch b.0 uri ≡ false) es
      ⊎ Stop fnmatch es uri
unfolding first_match
first_match_lem fnmatch [] uri = inl (refl, tt)
first_match_lem fnmatch (x ∷ es) uri = elim (Bool-cases (fnmatch x.0 uri)) [
  | inl yes_ ↦ inr (record {
    before = [];
    e = x;
    after = es;
    split = refl;
    passed = tt;
    matches = yes_;
    found = rw yes_ refl;
  })
  | inr no_ ↦ elim (first_match_lem fnmatch es uri) [
    | inl (none_, all) ↦ inl (rw (no_, none_) refl, (no_, all))
    | inr r ↦ inr (record {
      before = x ∷ r.before;
      e = r.e;
      after = r.after;
      split = ap (◌∷◌ x) r.split;
      passed = (no_, r.passed);
      matches = r.matches;
      found = rw no_ r.found;
    })
  ]
]

-- `getMatchedServlet` takes the servlet of the very path, else that of the pattern that was added
-- first of all that match, else the default one.
pub get_matched_servlet_lem :
    (fnmatch : Uri → Uri → Bool) (d : ServletDispatch) (uri : Uri)
    → Matched fnmatch d uri (get_matched_servlet fnmatch d uri)
unfolding get_matched_servlet
get_matched_servlet_lem fnmatch d uri = elim (Option-cases (find d.datas uri)) [
  | inr (c, here) ↦ rw (here, get_matched_servlet) (exactly c here)
  | inl gone ↦ elim (first_match_lem fnmatch d.globs uri) [
    | inl (none_, all) ↦ rw (gone, none_, get_matched_servlet) (by_default gone all)
    | inr r ↦
        rw (gone, r.found, get_matched_servlet)
          (by_pattern r.before r.e r.after gone r.split r.passed r.matches)
  ]
]
