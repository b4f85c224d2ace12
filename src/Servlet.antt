-- ===== src/Servlet.antt =====
-- inc/http/http_servlet.h and src/http/http_servlet.cpp: the dispatcher of requests to servlets.
-- A path is the list of its characters. `unordered_map` is an association list with one entry for
-- a key, the vector of patterns a list. `fnmatch` is a parameter, true where the C function
-- returns 0. Every method is one step under the dispatcher's lock.
pub mod Maps
pub mod Dispatch
mod Tests
use mnser.Common.{
  ℕ, List, [], ◌∷◌, ◌++◌, Bool, true, false, ◌&&◌, ◌==◌, if◌then◌else◌, Option, none, some,
}

abbrev pub Uri : Type 0
Uri = List ℕ

abbrev pub same : Uri → Uri → Bool
same [] [] = true
same [] (y ∷ ys) = false
same (x ∷ xs) [] = false
same (x ∷ xs) (y ∷ ys) = x == y && same xs ys

-- A servlet that somebody holds, by its address, or a new object of a class.
pub data Servlet : Type 0 where
  held : ℕ → Servlet
  new_of : ℕ → Servlet

-- `HoldServletCreator` of a servlet, and `ServletCreator` of a class.
pub data Creator : Type 0 where
  hold_servlet_creator : Servlet → Creator
  servlet_creator : ℕ → Creator

abbrev pub get : Creator → Servlet
get (hold_servlet_creator s) = s
get (servlet_creator t) = new_of t

abbrev pub Entries : Type 0
Entries = List (Uri × Creator)

pub record ServletDispatch : Type 0 where
  pub datas : Entries
  pub globs : Entries
  pub default_servlet : Servlet

-- `find`, on the map and in the loops over the patterns.
unfoldable pub find : Entries → Uri → Option Creator
find [] uri = none
find (e ∷ es) uri = let rest = find es uri in if same e.0 uri then some e.1 else rest

-- `m_datas[uri] = creator`.
unfoldable pub assign : Entries → Uri → Creator → Entries
assign [] uri c = (uri, c) ∷ []
assign (e ∷ es) uri c =
    let rest = assign es uri c in if same e.0 uri then (uri, c) ∷ es else e ∷ rest

-- The erasure of the first entry with a key.
unfoldable pub erase : Entries → Uri → Entries
erase [] uri = []
erase (e ∷ es) uri = let rest = erase es uri in if same e.0 uri then es else e ∷ rest

unfoldable pub add_servlet_creator : ServletDispatch → Uri → Creator → ServletDispatch
add_servlet_creator d uri c = record d { datas = assign d.datas uri c }

unfoldable pub add_servlet : ServletDispatch → Uri → Servlet → ServletDispatch
add_servlet d uri s = record d { datas = assign d.datas uri (hold_servlet_creator s) }

unfoldable pub add_glob_servlet_creator : ServletDispatch → Uri → Creator → ServletDispatch
add_glob_servlet_creator d uri c = record d { globs = erase d.globs uri ++ (uri, c) ∷ [] }

unfoldable pub add_glob_servlet : ServletDispatch → Uri → Servlet → ServletDispatch
add_glob_servlet d uri s = record d {
  globs = erase d.globs uri ++ (uri, hold_servlet_creator s) ∷ [];
}

unfoldable pub del_servlet : ServletDispatch → Uri → ServletDispatch
del_servlet d uri = record d { datas = erase d.datas uri }

unfoldable pub del_glob_servlet : ServletDispatch → Uri → ServletDispatch
del_glob_servlet d uri = record d { globs = erase d.globs uri }

abbrev pub got : Option Creator → Option Servlet
got none = none
got (some c) = some (get c)

-- A null pointer is `none`.
unfoldable pub get_servlet : ServletDispatch → Uri → Option Servlet
get_servlet d uri = got (find d.datas uri)

unfoldable pub get_glob_servlet : ServletDispatch → Uri → Option Servlet
get_glob_servlet d uri = got (find d.globs uri)

-- The loop of `getMatchedServlet`.
unfoldable pub first_match : (Uri → Uri → Bool) → Entries → Uri → Option Creator
first_match fnmatch [] uri = none
first_match fnmatch (e ∷ es) uri =
    let rest = first_match fnmatch es uri in if fnmatch e.0 uri then some e.1 else rest

unfoldable pub get_matched_servlet : (Uri → Uri → Bool) → ServletDispatch → Uri → Servlet
get_matched_servlet fnmatch d uri = elim (find d.datas uri) [
  | some c ↦ get c
  | none ↦ elim (first_match fnmatch d.globs uri) [ some c ↦ get c | none ↦ d.default_servlet ]
]

-- `handle` passes the request on to the servlet for its path, and returns 0 whatever that returns.
abbrev pub handle : (Uri → Uri → Bool) → ServletDispatch → Uri → Servlet × ℕ
handle fnmatch d path = (get_matched_servlet fnmatch d path, 0)

-- `listAllServletCreator` and `listAllGlobServletCreator`: the entries put into a map.
unfoldable pub list_all : Entries → Entries → Entries
list_all [] infos = infos
list_all (e ∷ es) infos = list_all es (assign infos e.0 e.1)
