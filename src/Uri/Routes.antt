-- ===== src/Uri/Routes.antt =====
-- Handlers below one another, src/main/c/util/PathHandler.cpp, find the page of a path.
use seasocks.Prelude.{
  ℕ, suc, ◌-◌, ◌≡◌, refl, ap, sym, ◌∙◌, inl, inr, true, false, ◌&&◌, List, [], ◌∷◌, ◌++◌, length,
  replicate, if◌then◌else◌, Bytes, arith, Bool-cases,
}
use seasocks.Text.Words.{same_bytes}
use seasocks.Connection.{M}
use seasocks.Requests.{PageRequest, Page, unhandled, response, throws}
use seasocks.Uri.{CrackedUri, Cracking, cracked, malformed, crack, shift, shifted_path}
use seasocks.Uri.Handlers.{or_else, first_handled, path_handle, static_handle, root_of, root_handle}
use seasocks.Uri.Table.{
  Route, Routes, page, below, end, route, handler, handlers, Pages, under, pages_of, pages,
  same_path, leads_to, find_page,
}

find_page-append :
    (ps qs : Pages) (asked : List Bytes)
    → find_page (ps ++ qs) asked ≡ or_else (find_page ps asked) (find_page qs asked)
unfolding find_page
find_page-append [] qs asked = refl
find_page-append ((path, canned) ∷ ps) qs asked = elim (Bool-cases (leads_to asked path)) [
  | inl here ↦ rw here refl
  | inr other ↦ rw other (find_page-append ps qs asked)
]

-- Every page has a path.
abbrev HasPath : List Bytes → Type 0
HasPath [] = ⊥
HasPath (p ∷ ps) = Unit

abbrev HavePaths : Pages → Type 0
HavePaths [] = Unit
HavePaths ((path, canned) ∷ ps) = HasPath path × HavePaths ps

HavePaths-append : (ps qs : Pages) → HavePaths ps → HavePaths qs → HavePaths (ps ++ qs)
HavePaths-append [] qs h k = k
HavePaths-append ((path, canned) ∷ ps) qs h k = (h.0, HavePaths-append ps qs h.1 k)

under-HavePaths : (path : Bytes) (ps : Pages) → HavePaths (under path ps)
under-HavePaths path [] = tt
under-HavePaths path ((p, canned) ∷ ps) = (tt, under-HavePaths path ps)

mutual
  unfolding pages

  pages_of-HavePaths : (r : Route) → HavePaths (pages_of r)
  pages_of-HavePaths (page path canned) = (tt, tt)
  pages_of-HavePaths (below path routes) = under-HavePaths path (pages routes)

  pages-HavePaths : (rs : Routes) → HavePaths (pages rs)
  pages-HavePaths end = tt
  pages-HavePaths (route r rs) =
      HavePaths-append (pages_of r) (pages rs) (pages_of-HavePaths r) (pages-HavePaths rs)

less : (m n : ℕ) → suc m - suc n ≡ m - n
less m n = omega arith

leads_to-under :
    (p : Bytes) (path : List Bytes) (x : Bytes) (xs : List Bytes)
    → HasPath path
    → leads_to (x ∷ xs) (p ∷ path) ≡ (same_bytes x p && leads_to (shifted_path (x ∷ xs)) path)
unfolding same_path
leads_to-under p [] x xs h = absurd h
leads_to-under p (q ∷ path) x [] h =
    let e : suc (suc (length path)) - 1 ≡ suc (length path) = omega arith in
    let f : suc (length path) - 1 ≡ length path = omega arith in rw (e, f) refl
leads_to-under p (q ∷ path) x (y ∷ ys) h =
    ap (λ n. same_bytes x p && same_path (y ∷ (ys ++ replicate n [])) (q ∷ path))
      (less (suc (length path)) (suc (length ys)))

find_page-under :
    (p : Bytes) (ps : Pages) (x : Bytes) (xs : List Bytes)
    → HavePaths ps
    → find_page (under p ps) (x ∷ xs)
      ≡ (if same_bytes x p then find_page ps (shifted_path (x ∷ xs)) else unhandled)
unfolding find_page
find_page-under p ps x xs h = elim (Bool-cases (same_bytes x p)) [
  | inl same ↦ rw same (inside ps h same)
  | inr other ↦ rw other (outside ps h other)
]
  where
    inside :
        (ps : Pages)
        → HavePaths ps
        → same_bytes x p ≡ true
        → find_page (under p ps) (x ∷ xs) ≡ find_page ps (shifted_path (x ∷ xs))
    inside [] h same = refl
    inside ((path, canned) ∷ ps) h same = (λ i.
        if (leads_to-under p path x xs h.0
            ∙ ap (λ b. b && leads_to (shifted_path (x ∷ xs)) path) same)
          i
        then response canned
        else inside ps h.1 same i)

    outside :
        (ps : Pages)
        → HavePaths ps
        → same_bytes x p ≡ false
        → find_page (under p ps) (x ∷ xs) ≡ unhandled
    outside [] h other = refl
    outside ((path, canned) ∷ ps) h other = (λ i.
        if (leads_to-under p path x xs h.0
            ∙ ap (λ b. b && leads_to (shifted_path (x ∷ xs)) path) other)
          i
        then response canned
        else outside ps h.1 other i)

abbrev uri_of : List Bytes → List (Bytes × Bytes) → CrackedUri
uri_of path params = record { path = path; query_params = params }

find_page-page :
    (path : Bytes) (canned : M (Unit {0})) (x : Bytes) (xs : List Bytes)
    (params : List (Bytes × Bytes)) (request : PageRequest)
    → static_handle path canned (uri_of (x ∷ xs) params) request
      ≡ find_page ((path ∷ [], canned) ∷ []) (x ∷ xs)
unfolding static_handle find_page same_path
find_page-page path canned x [] params request = elim (Bool-cases (same_bytes x path)) [
  | inl same ↦ rw same refl
  | inr other ↦ rw other refl
]
find_page-page path canned x (y ∷ ys) params request = elim (Bool-cases (same_bytes x path)) [
  | inl same ↦ rw same refl
  | inr other ↦ rw other refl
]

mutual
  unfolding handler pages find_page path_handle first_handled shift

  handler-find_page :
      (r : Route) (x : Bytes) (xs : List Bytes) (params : List (Bytes × Bytes))
      (request : PageRequest)
      → handler r (uri_of (x ∷ xs) params) request ≡ find_page (pages_of r) (x ∷ xs)
  handler-find_page (page path canned) x xs params request =
      find_page-page path canned x xs params request
  handler-find_page (below path routes) x [] params request =
      ap (λ p. if same_bytes x path then p else unhandled)
        (handlers-find_page routes [] [] params request)
      ∙ sym (find_page-under path (pages routes) x [] (pages-HavePaths routes))
  handler-find_page (below path routes) x (y ∷ ys) params request =
      ap (λ p. if same_bytes x path then p else unhandled)
        (handlers-find_page routes y ys params request)
      ∙ sym (find_page-under path (pages routes) x (y ∷ ys) (pages-HavePaths routes))

  handlers-find_page :
      (rs : Routes) (x : Bytes) (xs : List Bytes) (params : List (Bytes × Bytes))
      (request : PageRequest)
      → first_handled (handlers rs) (uri_of (x ∷ xs) params) request ≡ find_page (pages rs) (x ∷ xs)
  handlers-find_page end x xs params request = refl
  handlers-find_page (route r rs) x xs params request =
      (λ i.
        or_else (handler-find_page r x xs params request i)
          (handlers-find_page rs x xs params request i))
      ∙ sym (find_page-append (pages_of r) (pages rs) (x ∷ xs))

mutual
  unfolding handler path_handle first_handled static_handle

  handler-no_path :
      (r : Route) (params : List (Bytes × Bytes)) (request : PageRequest)
      → handler r (uri_of [] params) request ≡ unhandled
  handler-no_path (page path canned) params request = refl
  handler-no_path (below path routes) params request = refl

  handlers-no_path :
      (rs : Routes) (params : List (Bytes × Bytes)) (request : PageRequest)
      → first_handled (handlers rs) (uri_of [] params) request ≡ unhandled
  handlers-no_path end params request = refl
  handlers-no_path (route r rs) params request =
      (λ i. or_else (handler-no_path r params request i) (handlers-no_path rs params request i))

-- What is answered for a URI: nothing where its path has no segments.
abbrev pub page_at : Pages → List Bytes → Page
page_at ps [] = unhandled
page_at ps (x ∷ xs) = find_page ps (x ∷ xs)

abbrev pub answer : Pages → Cracking CrackedUri → Page
answer ps (malformed what) = throws what
answer ps (cracked uri) = page_at ps uri.path

handlers-page_at :
    (rs : Routes) (path : List Bytes) (params : List (Bytes × Bytes)) (request : PageRequest)
    → first_handled (handlers rs) (uri_of path params) request ≡ page_at (pages rs) path
handlers-page_at rs [] params request = handlers-no_path rs params request
handlers-page_at rs (x ∷ xs) params request = handlers-find_page rs x xs params request

-- The root handler over static pages and path handlers, nested to any depth, answers a request as
-- the table of its pages with their whole paths does: with the first page whose path is that of the
-- URI, or it with empty segments behind it, with nothing where there is none or the URI's path has
-- no segments, and with the exception where the URI is malformed.
pub root_handle-answer :
    (rs : Routes) (request : PageRequest)
    → root_handle (handlers rs) request ≡ answer (pages rs) (crack request.request_uri)
unfolding root_handle
root_handle-answer rs request =
    elim (crack request.request_uri)
      as (λ u. root_of (handlers rs) request u ≡ answer (pages rs) u) [
        | malformed what ↦ refl
        | cracked uri ↦ handlers-page_at rs uri.path uri.query_params request
      ]
