-- ===== src/Threads/Shim.antt =====
-- The URL of the script that a worker loads: `getShimUrl`, `detectShimUrl` and their use in
-- `wasm_safe_thread_spawn_worker` of src/wasm.rs. `pathname` is that of the browser's `URL`.
use Prim.Native.String.{String, len, slice, ◌++◌}
use text.Mathlib.Text.{find?, starts_with}
use text.Mathlib.Text
use wasm_safe_thread.Base.{
  ℕ, ◌-◌, zero, suc, Bool, true, false, not, ◌&&◌, Option, none, some, List, [], ◌∷◌, if◌then◌else◌,
  leb,
}

abbrev pub is_some : {A : Type 0} → Option A → Bool
is_some none = false
is_some (some _) = true

-- `s.includes(t)` and `s.endsWith(t)`.
unfoldable pub includes : String → String → Bool
includes s t = is_some (find? s t)

unfoldable pub is_below : String → String → Bool
is_below base s = starts_with s (base ++ "/")

unfoldable pub ends_with : String → String → Bool
ends_with s t = leb (len t) (len s) && Text.◌==◌ (slice s (len s - len t) (len s)) t

-- `s.split('?')[0]`.
abbrev pub before : Option ℕ → String → String
before none s = s
before (some i) s = slice s 0 i

unfoldable pub without_query : String → String
without_query s = before (find? s "?") s

-- `s.split('/').pop()`: what follows the last "/" before `k`, or everything.
unfoldable pub after_slash : ℕ → String → String
after_slash zero s = s
after_slash (suc k) s =
    let rest = after_slash k s in
    if Text.◌==◌ (slice s k (suc k)) "/" then slice s (suc k) (len s) else rest

unfoldable pub last_part : String → String
unfolding after_slash
last_part s = after_slash (len s) s

abbrev pub cut_at : Option ℕ → String → Option String
cut_at none s = none
cut_at (some idx) s = some (slice s 0 idx)

unfoldable pub base_of : String → Option String
base_of self_url = cut_at (find? self_url "/snippets/") self_url

abbrev pub shim_at : String → String → String
shim_at base shim_name = base ++ "/" ++ shim_name ++ ".js"

abbrev pub shim_below : Option String → String → Option String
shim_below none shim_name = none
shim_below (some base) shim_name = some (shim_at base shim_name)

unfoldable pub get_shim_url : String → String → Option String
unfolding base_of
get_shim_url self_url shim_name = shim_below (base_of self_url) shim_name

unfoldable pub is_plain : String → Bool
unfolding includes
is_plain filename =
    not (Text.◌==◌ filename "") && not (includes filename ".") && not (Text.◌==◌ filename "favicon")

-- What the loop over the page's resources does with one, `url` without its query, from its tests:
-- whether it is below the base, in "/snippets/", the test runner, a ".js" file, or has a plain name.
abbrev pub unless_skipped :
    Bool → Bool → Bool → Bool → Bool → String → Option String → Option String
unless_skipped below snippet runner script plain url rest =
    if not below
    then rest
    else if snippet
    then rest
    else if runner
    then rest
    else if script
    then some url
    else if plain
    then some (url ++ ".js")
    else rest

module _ (pathname : String → String) where
  -- The loop over the page's resources.
  unfoldable pub find_shim : String → List String → Option String
  unfolding is_below includes ends_with last_part without_query is_plain
  find_shim base [] = none
  find_shim base (name ∷ rs) =
      unless_skipped (is_below base name) (includes name "/snippets/")
        (ends_with (pathname name) "/run.js") (ends_with (pathname name) ".js")
        (is_plain (last_part (pathname name))) (without_query name) (find_shim base rs)

  unfoldable pub detect_shim_url : String → Bool → List String → Option String
  detect_shim_url base is_node rs = if is_node then none else find_shim base rs

  abbrev pub or_default : String → Option String → Option String
  or_default self_url none = get_shim_url self_url "wasm-bindgen-test"
  or_default self_url (some u) = some u

  -- The builder's shim name is empty, or not.
  abbrev pub choose : Bool → Option String → String → Bool → String → List String → Option String
  choose false base self_url is_node shim_name rs = get_shim_url self_url shim_name
  choose true none self_url is_node shim_name rs = none
  choose true (some base) self_url is_node shim_name rs =
      or_default self_url (detect_shim_url base is_node rs)

  -- `none` where the code throws.
  unfoldable pub shim_url : String → Bool → String → List String → Option String
  unfolding base_of get_shim_url detect_shim_url find_shim
  shim_url self_url is_node shim_name rs =
      choose (Text.◌==◌ shim_name "") (base_of self_url) self_url is_node shim_name rs
