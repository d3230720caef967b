-- ===== src/Threads/Script.antt =====
-- Which of a page's resources becomes the script of a worker, described without the loop of
-- `detectShimUrl` in src/wasm.rs.
use Prim.Native.String.{String, len, ◌++◌}
use text.Mathlib.Text.{find?, starts_with}
use text.Mathlib.Text
use text.Mathlib.TextPositions.{slice-append_left}
use wasm_safe_thread.Base.{
  ◌≡◌, refl, ap, ◌∙◌, Bool, true, false, not, ◌&&◌, ◌||◌, Option, none, some, List, [], ◌∷◌,
  if◌then◌else◌,
}
use wasm_safe_thread.Threads.Shim.{
  includes, is_below, ends_with, without_query, last_part, cut_at, base_of, shim_at, shim_below,
  get_shim_url, is_plain, unless_skipped, find_shim, detect_shim_url, or_default, choose, shim_url,
}

module _ (pathname : String → String) where
  -- A script below `base` that may be the shim.
  abbrev pub is_shim : String → String → Bool
  is_shim base name =
      is_below base name
      && not (includes name "/snippets/")
      && not (ends_with (pathname name) "/run.js")
      && (ends_with (pathname name) ".js" || is_plain (last_part (pathname name)))

  abbrev pub first : (String → Bool) → List String → Option String
  first p [] = none
  first p (x ∷ xs) = if p x then some x else first p xs

  -- With the extension that some browsers leave out.
  abbrev pub script_url : String → String
  script_url name =
      if ends_with (pathname name) ".js" then without_query name else without_query name ++ ".js"

  abbrev pub map_script : Option String → Option String
  map_script none = none
  map_script (some name) = some (script_url name)

  unless_skipped_lem :
      (b i r s p : Bool) (url : String) (rest : Option String)
      → unless_skipped b i r s p url rest
        ≡ (if b && not i && not r && (s || p) then some (if s then url else url ++ ".js") else rest)
  unless_skipped_lem false i r s p url rest = refl
  unless_skipped_lem true true r s p url rest = refl
  unless_skipped_lem true false true s p url rest = refl
  unless_skipped_lem true false false true p url rest = refl
  unless_skipped_lem true false false false true url rest = refl
  unless_skipped_lem true false false false false url rest = refl

  map_script_if :
      (c : Bool) (name : String) (o : Option String)
      → (if c then some (script_url name) else map_script o)
        ≡ map_script (if c then some name else o)
  map_script_if true name o = refl
  map_script_if false name o = refl

  find_shim_lem :
      (base : String) (rs : List String)
      → find_shim pathname base rs ≡ map_script (first (is_shim base) rs)
  unfolding find_shim
  find_shim_lem base [] = refl
  find_shim_lem base (name ∷ rs) =
      unless_skipped_lem (is_below base name) (includes name "/snippets/")
        (ends_with (pathname name) "/run.js") (ends_with (pathname name) ".js")
        (is_plain (last_part (pathname name))) (without_query name) (find_shim pathname base rs)
      ∙ ap (λ o. if is_shim base name then some (script_url name) else o) (find_shim_lem base rs)
      ∙ map_script_if (is_shim base name) name (first (is_shim base) rs)

  abbrev pub script_or : String → Option String → String
  script_or u none = u
  script_or u (some name) = script_url name

  base_of_lem :
      (base rest : String)
      → find? (base ++ ("/snippets/" ++ rest)) "/snippets/" ≡ some (len base)
      → base_of (base ++ ("/snippets/" ++ rest)) ≡ some base
  unfolding base_of
  base_of_lem base rest e =
      ap (λ o. cut_at o (base ++ ("/snippets/" ++ rest))) e
      ∙ ap some (slice-append_left base ("/snippets/" ++ rest))

  get_lem :
      (self base shim_name : String)
      → base_of self ≡ some base
      → get_shim_url self shim_name ≡ some (shim_at base shim_name)
  unfolding get_shim_url
  get_lem self base shim_name e = ap (λ o. shim_below o shim_name) e

  default_lem :
      (self base : String) (o : Option String)
      → base_of self ≡ some base
      → or_default pathname self (map_script o)
        ≡ some (script_or (shim_at base "wasm-bindgen-test") o)
  default_lem self base none e = get_lem self base "wasm-bindgen-test" e
  default_lem self base (some name) e = refl

  detect_lem :
      (base : String) (is_node : Bool) (rs : List String)
      → detect_shim_url pathname base is_node rs
        ≡ map_script (if is_node then none else first (is_shim base) rs)
  unfolding detect_shim_url
  detect_lem base true rs = refl
  detect_lem base false rs = find_shim_lem base rs

  choose_lem :
      (b : Bool) (self base : String) (is_node : Bool) (shim_name : String) (rs : List String)
      → base_of self ≡ some base
      → choose pathname b (some base) self is_node shim_name rs
        ≡ some (
            if not b
            then shim_at base shim_name
            else script_or
                (shim_at base "wasm-bindgen-test")
                (if is_node then none else first (is_shim base) rs))
  choose_lem false self base is_node shim_name rs e = get_lem self base shim_name e
  choose_lem true self base is_node shim_name rs e =
      ap (or_default pathname self) (detect_lem base is_node rs)
      ∙ default_lem self base (if is_node then none else first (is_shim base) rs) e

  -- When "/snippets/" is first found in this module's own URL after `base`, the URL of a worker's
  -- script is known: below `base` under the shim's name, if the builder has one; or else, in a
  -- browser, that of the first of the page's resources below `base` that may be the shim, without its
  -- query and with the extension ".js"; or else that of the test runner's shim below `base`.
  pub shim_url_lem :
      (base rest : String) (is_node : Bool) (shim_name : String) (rs : List String)
      → find? (base ++ ("/snippets/" ++ rest)) "/snippets/" ≡ some (len base)
      → shim_url pathname (base ++ ("/snippets/" ++ rest)) is_node shim_name rs
        ≡ some (
            if not (Text.◌==◌ shim_name "")
            then shim_at base shim_name
            else script_or
                (shim_at base "wasm-bindgen-test")
                (if is_node then none else first (is_shim base) rs))
  unfolding shim_url
  shim_url_lem base rest is_node shim_name rs e =
      let self : String = base ++ ("/snippets/" ++ rest) in
      let unnamed = Text.◌==◌ shim_name "" in
      let known = base_of_lem base rest e in
      ap (λ o. choose pathname unnamed o self is_node shim_name rs) known
      ∙ choose_lem unnamed self base is_node shim_name rs known
