-- ===== src/Threads/Shown.antt =====
-- When the captured text is flushed does not matter.
use wasm_safe_thread.Base.{
  ℕ, ◌≡◌, refl, ap, ◌∙◌, sym, subst, inl, inr, Bool, true, List, [], ◌∷◌, ◌++◌, map, some, ◌==◌,
  push, arith, Bool-cases,
}
use mathlib.Core.List.{append_assoc, append-nil, map-append}
use wasm_safe_thread.Threads.Console.{
  without_return, lines_from, lines, route, Shown, Output, print, flush,
}

-- The text is empty, or its last line has its end.
abbrev pub ends_line : List ℕ → Bool
ends_line [] = true
ends_line (c ∷ []) = c == b'\n'
ends_line (c ∷ d ∷ cs) = ends_line (d ∷ cs)

lines_from-append :
    (line : List ℕ) (c : ℕ) (cs text : List ℕ)
    → ends_line (c ∷ cs) ≡ true
    → lines_from line ((c ∷ cs) ++ text) ≡ lines_from line (c ∷ cs) ++ lines text
unfolding lines_from
lines_from-append line c [] text e = rw e
lines_from-append line c (d ∷ cs) text e = elim (Bool-cases (c == b'\n')) [
  | inl new ↦ rw new (ap (λ ls. without_return line ∷ ls) (lines_from-append [] d cs text e))
  | inr old ↦ rw old (lines_from-append (push line c) d cs text e)
]

lines-append :
    (xs text : List ℕ) → ends_line xs ≡ true → lines (xs ++ text) ≡ lines xs ++ lines text
unfolding lines_from
lines-append [] text e = refl
lines-append (c ∷ cs) text e = lines_from-append [] c cs text e

ends_line-append :
    (xs ys : List ℕ) → ends_line xs ≡ true → ends_line ys ≡ true → ends_line (xs ++ ys) ≡ true
ends_line-append [] ys e k = k
ends_line-append (c ∷ []) [] e k = e
ends_line-append (c ∷ []) (d ∷ ys) e k = k
ends_line-append (c ∷ d ∷ cs) ys e k = ends_line-append (d ∷ cs) ys e k

-- What a thread does with its output.
pub data Action : Type 0 where
  printed : List ℕ → Action
  flushed : Action

unfoldable pub act : Output → List Action → Output
unfolding print flush
act o [] = o
act o (printed text ∷ acts) = act (print text o) acts
act o (flushed ∷ acts) = act (flush o) acts

abbrev pub text_of : List Action → List ℕ
text_of [] = []
text_of (printed text ∷ acts) = text ++ text_of acts
text_of (flushed ∷ acts) = text_of acts

abbrev pub WholeLines : List Action → Type 0
WholeLines [] = Unit {0}
WholeLines (printed text ∷ acts) = (ends_line text ≡ true) × WholeLines acts
WholeLines (flushed ∷ acts) = WholeLines acts

pub flush_lem :
    (o : Output) (bytes : List ℕ)
    → o.capture ≡ some bytes
    → ((flush o).console ≡ o.console ++ map route (lines bytes)) × ((flush o).capture ≡ some [])
unfolding flush lines_from
flush_lem o [] e = (ground (arith, append-nil o.console), ground arith)
flush_lem o (x ∷ xs) e = (rw e refl, rw e refl)

pub print_lem :
    (o : Output) (text bytes : List ℕ)
    → o.capture ≡ some bytes
    → ((print text o).capture ≡ some (bytes ++ text)) × ((print text o).console ≡ o.console)
unfolding print
print_lem o text bytes e = (rw e refl, rw e refl)

abbrev pub Shows : List Shown → List ℕ → Output → Type 0
Shows before text o = (o.console ≡ before ++ map route (lines text)) × (o.capture ≡ some [])

Shows-lines :
    (before : List Shown) (bytes text : List ℕ) (o : Output)
    → ends_line bytes ≡ true
    → Shows (before ++ map route (lines bytes)) text o
    → Shows before (bytes ++ text) o
Shows-lines before bytes text o e (k, none_left) =
    let split =
      ap (map route) (lines-append bytes text e) ∙ map-append route (lines bytes) (lines text) in
    (k ∙ append_assoc before _ _ ∙ ap (λ ls. before ++ ls) (sym split), none_left)

-- A redirected thread prints whole lines, with flushes between them in any places, and flushes at the
-- end: the console then has, after what it had, each line of the captured and the printed text, in
-- order and once, as an error when it says " panicked at " and as a log otherwise, and nothing is left
-- to flush.
pub every_line_is_shown_once :
    (o : Output) (bytes : List ℕ) (acts : List Action)
    → o.capture ≡ some bytes
    → ends_line bytes ≡ true
    → WholeLines acts
    → Shows o.console (bytes ++ text_of acts) (flush (act o acts))
unfolding act
every_line_is_shown_once o bytes [] e k w =
    subst (λ text. Shows o.console text (flush o)) (sym (append-nil bytes)) (flush_lem o bytes e)
every_line_is_shown_once o bytes (printed text ∷ acts) e k (w, ws) =
    let p = print_lem o text bytes e in
    let shown =
      every_line_is_shown_once (print text o) (bytes ++ text) acts p.0
        (ends_line-append bytes text k w) ws in
    subst
      (λ before. Shows before (bytes ++ (text ++ text_of acts)) (flush (act (print text o) acts)))
      p.1
      (subst (λ ts. Shows (print text o).console ts (flush (act (print text o) acts)))
        (append_assoc bytes text (text_of acts)) shown)
every_line_is_shown_once o bytes (flushed ∷ acts) e k ws =
    let p = flush_lem o bytes e in
    Shows-lines o.console bytes (text_of acts) (flush (act (flush o) acts)) k (
      subst (λ before. Shows before (text_of acts) (flush (act (flush o) acts))) p.0
        (every_line_is_shown_once (flush o) [] acts p.1 refl ws))
