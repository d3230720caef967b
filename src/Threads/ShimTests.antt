-- ===== src/Threads/ShimTests.antt =====
-- The URL of the shim, for a page with five resources.
use Prim.Native.String.{String, len, slice, ◌++◌}
use wasm_safe_thread.Base.{◌≡◌, refl, false, some, List, [], ◌∷◌}
use wasm_safe_thread.Threads.Script.{shim_url_lem}
use wasm_safe_thread.Threads.Shim.{
  without_query, includes, ends_with, is_below, last_part, after_slash, is_plain, shim_url,
}

-- The path of a URL of the host "a".
abbrev path : String → String
path url = slice (without_query url) 9 (len url)

abbrev page : List String
page =
    "https://a/other.js" ∷ "https://a/x/snippets/h/inline0.js" ∷ "https://a/x/run.js"
    ∷ "https://a/x/style.css" ∷ "https://a/x/app?worker=1" ∷ []

shim_url_example :
    shim_url path ("https://a/x" ++ ("/snippets/" ++ "h/inline0.js")) false "" page
    ≡ some "https://a/x/app.js"
unfolding without_query includes ends_with is_below last_part is_plain after_slash
shim_url_example = shim_url_lem path "https://a/x" "h/inline0.js" false "" page refl
