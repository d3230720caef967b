-- ===== src/Threads/Console.antt =====
-- `CONSOLE_CAPTURE` of src/wasm.rs: what a redirected thread prints, and what the console shows of it.
-- A text is a list of code points; `from_utf8_lossy` gives a printed text back.
use wasm_safe_thread.Base.{
  ℕ, Bool, true, false, ◌&&◌, ◌||◌, List, [], ◌∷◌, ◌++◌, map, Option, none, some, if◌then◌else◌,
  ◌==◌, push,
}

-- `str::lines`: a line ends in "\n" or "\r\n", and the last may have no end.
abbrev pub without_return : List ℕ → List ℕ
without_return [] = []
without_return (x ∷ []) = if x == 13 then [] else x ∷ []
without_return (x ∷ y ∷ ys) = x ∷ without_return (y ∷ ys)

abbrev pub last_line : List ℕ → List (List ℕ)
last_line [] = []
last_line (x ∷ xs) = (x ∷ xs) ∷ []

unfoldable pub lines_from : List ℕ → List ℕ → List (List ℕ)
lines_from line [] = last_line line
lines_from line (c ∷ cs) =
    let next = lines_from [] cs in
    let rest = lines_from (push line c) cs in
    if c == b'\n' then without_return line ∷ next else rest

abbrev pub lines : List ℕ → List (List ℕ)
lines text = lines_from [] text

-- `line.contains(" panicked at ")`.
abbrev pub is_prefix : List ℕ → List ℕ → Bool
is_prefix [] ys = true
is_prefix (x ∷ xs) [] = false
is_prefix (x ∷ xs) (y ∷ ys) = x == y && is_prefix xs ys

abbrev pub contains : List ℕ → List ℕ → Bool
contains pattern_of [] = is_prefix pattern_of []
contains pattern_of (y ∷ ys) = is_prefix pattern_of (y ∷ ys) || contains pattern_of ys

abbrev pub panicked_at : List ℕ
panicked_at =
    b' ' ∷ b'p' ∷ b'a' ∷ b'n' ∷ b'i' ∷ b'c' ∷ b'k' ∷ b'e' ∷ b'd' ∷ b' ' ∷ b'a' ∷ b't' ∷ b' ' ∷ []

-- `console.log` and `console.error`.
pub data Shown : Type 0 where
  log error : List ℕ → Shown

unfoldable pub route : List ℕ → Shown
route line = if contains panicked_at line then error line else log line

-- A thread's capture, what the console has shown of it, and what it printed elsewhere.
pub record Output : Type 0 where
  pub capture : Option (List ℕ)
  pub console : List Shown
  pub elsewhere : List ℕ

-- `redirect_println_eprintln_to_console_current_thread_impl`: a second call changes nothing.
abbrev pub set_capture : Option (List ℕ) → Output → Output
set_capture none o = record o { capture = some [] }
set_capture (some bytes) o = o

unfoldable pub redirect : Output → Output
redirect o = set_capture o.capture o

-- `print!` and `eprint!` under `set_output_capture`.
abbrev pub print_to : Option (List ℕ) → List ℕ → Output → Output
print_to none text o = record o { elsewhere = o.elsewhere ++ text }
print_to (some bytes) text o = record o { capture = some (bytes ++ text) }

unfoldable pub print : List ℕ → Output → Output
print text o = print_to o.capture text o

-- `flush_captured_prints_to_console_current_thread_impl`.
abbrev pub flush_of : Option (List ℕ) → Output → Output
flush_of none o = o
flush_of (some []) o = o
flush_of (some (x ∷ xs)) o = record o {
  capture = some [];
  console = o.console ++ map route (lines (x ∷ xs));
}

unfoldable pub flush : Output → Output
unfolding lines_from route
flush o = flush_of o.capture o
