-- ===== src/Uri/Table.antt =====
-- Handlers below one another, as src/main/c/seasocks/util/PathHandler.h nests them, and the table of their pages.
use seasocks.Prelude.{
  ◌-◌, Bool, true, false, ◌&&◌, List, [], ◌∷◌, ◌++◌, length, replicate, map, if◌then◌else◌, Bytes,
}
use seasocks.Text.Words.{same_bytes}
use seasocks.Connection.{M}
use seasocks.Requests.{Page, unhandled, response}
use seasocks.Uri.Handlers.{CrackedUriPageHandler, path_handle, static_handle}

mutual
  -- A page, or what stands below a path.
  pub data Route : Type 0 where
    page : Bytes → M (Unit {0}) → Route
    below : Bytes → Routes → Route

  pub data Routes : Type 0 where
    end : Routes
    route : Route → Routes → Routes

unfoldable mutual
  pub handler : Route → CrackedUriPageHandler
  handler (page path canned) = static_handle path canned
  handler (below path routes) = path_handle path (handlers routes)

  pub handlers : Routes → List CrackedUriPageHandler
  handlers end = []
  handlers (route r rs) = handler r ∷ handlers rs

abbrev pub Pages : Type 0
Pages = List (List Bytes × M (Unit {0}))

abbrev pub under : Bytes → Pages → Pages
under path pages = map (λ p. (path ∷ p.0, p.1)) pages

unfoldable mutual
  -- The pages with their whole paths, in order.
  pub pages_of : Route → Pages
  pages_of (page path canned) = (path ∷ [], canned) ∷ []
  pages_of (below path routes) = under path (pages routes)

  pub pages : Routes → Pages
  pages end = []
  pages (route r rs) = pages_of r ++ pages rs

unfoldable pub same_path : List Bytes → List Bytes → Bool
same_path [] [] = true
same_path [] (y ∷ ys) = false
same_path (x ∷ xs) [] = false
same_path (x ∷ xs) (y ∷ ys) = same_bytes x y && same_path xs ys

-- The path of a page is the one asked for, or it with empty segments behind it.
abbrev pub leads_to : List Bytes → List Bytes → Bool
leads_to asked path = same_path (asked ++ replicate (length path - length asked) []) path

unfoldable pub find_page : Pages → List Bytes → Page
unfolding same_path
find_page [] asked = unhandled
find_page ((path, canned) ∷ ps) asked =
    let rest = find_page ps asked in if leads_to asked path then response canned else rest
