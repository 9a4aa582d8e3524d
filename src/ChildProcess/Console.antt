-- ===== src/ChildProcess/Console.antt =====
-- The coroutine of `Process::spawn` that reads what a child prints (src/system.hpp). What
-- `async_read_until` does is given for each read: the bytes that arrive, how many it reports, which
-- are those up to the first newline, and whether it fails.
use virtual_media.Base.{
  ℕ, ◌≡◌, refl, ap, sym, ◌∙◌, Bool, true, false, List, [], ◌∷◌, ◌++◌, append_assoc, append-nil,
  Text, if◌then◌else◌, ◌==◌, drop, length, drop-length-append, NoneOf, All,
}

pub record Read : Type 0 where
  pub arrived : Text
  pub consumed : ℕ
  pub failed : Bool

abbrev is_newline : ℕ → Bool
is_newline c = c == 10

abbrev is_nil : Text → Bool
is_nil [] = true
is_nil (c ∷ s) = false

-- The loop over the lines of the buffer; a last line without its newline is printed too.
unfoldable pub console_lines : Text → Text → List Text
console_lines begun [] = if is_nil begun then [] else begun ∷ []
console_lines begun (c ∷ s) = elim (is_newline c) [
  | true ↦ begun ∷ console_lines [] s
  | false ↦ console_lines (begun ++ c ∷ []) s
]

-- The loop over the reads, with what stands in the buffer: the lines that are printed. Only the
-- bytes that the read reports are taken from the buffer.
unfoldable pub read_console : Text → List Read → List Text
unfolding console_lines
read_console line [] = []
read_console line (r ∷ rs) =
    let rest = read_console (drop r.consumed (line ++ r.arrived)) rs in
    console_lines [] (line ++ r.arrived) ++ (if r.failed then [] else rest)

-- A line with its newline.
abbrev pub ended : Text → Text
ended l = l ++ 10 ∷ []

abbrev pub joined : List Text → Text
joined [] = []
joined (l ∷ ls) = ended l ++ joined ls

abbrev pub IsLine : Text → Type 0
IsLine = NoneOf is_newline

console_lines-append :
    (begun l rest : Text)
    → IsLine l
    → console_lines begun (ended l ++ rest) ≡ (begun ++ l) ∷ console_lines [] rest
unfolding console_lines
console_lines-append begun [] rest h = rw (append-nil begun) refl
console_lines-append begun (c ∷ l) rest h =
    rw (h.0, console_lines)
      (rw (console_lines-append (begun ++ c ∷ []) l rest h.1)
        (ap (◌∷ console_lines [] rest) (append_assoc begun (c ∷ []) l)))

console_lines-joined : (ls : List Text) → All IsLine ls → console_lines [] (joined ls) ≡ ls
unfolding console_lines
console_lines-joined [] h = refl
console_lines-joined (l ∷ ls) h =
    rw (console_lines-append [] l (joined ls) h.0) (rw (console_lines-joined ls h.1) refl)

console_lines-ended : (l : Text) → IsLine l → console_lines [] (ended l) ≡ l ∷ []
unfolding console_lines
console_lines-ended l h =
    ap (console_lines []) (sym (append-nil (ended l))) ∙ console_lines-append [] l [] h

drop-ended : (l : Text) → drop (length (ended l)) (ended l) ≡ []
drop-ended l =
    ap (drop (length (ended l))) (sym (append-nil (ended l))) ∙ drop-length-append (ended l) []

-- One read for each line, which brings that line and no more.
abbrev pub by_line : List Text → List Read
by_line [] = []
by_line (l ∷ ls) =
    record { arrived = ended l; consumed = length (ended l); failed = false } ∷ by_line ls

-- Lines that arrive one at a time are printed once each, as they are.
pub read_console-by_line : (ls : List Text) → All IsLine ls → read_console [] (by_line ls) ≡ ls
unfolding read_console
read_console-by_line [] h = refl
read_console-by_line (l ∷ ls) h =
    rw (drop-ended l) (rw (console_lines-ended l h.0) (ap (l ∷◌) (read_console-by_line ls h.1)))

-- The reads that follow lines that have arrived together: each finds the next line in the buffer.
abbrev pub at_once : List Text → List Read
at_once [] = []
at_once (l ∷ ls) = record { arrived = []; consumed = length (ended l); failed = false } ∷ at_once ls

-- The lines, then all but the first, and so on.
abbrev pub suffixes : List Text → List Text
suffixes [] = []
suffixes (l ∷ ls) = (l ∷ ls) ++ suffixes ls

-- Lines that stand in the buffer together are printed again with every read: of `n` lines the
-- last is printed `n` times.
pub read_console-at_once :
    (ls : List Text) → All IsLine ls → read_console (joined ls) (at_once ls) ≡ suffixes ls
unfolding read_console
read_console-at_once [] h = refl
read_console-at_once (l ∷ ls) h = rw (append-nil (ended l ++ joined ls)) (
    rw (drop-length-append (ended l) (joined ls)) (
      rw (console_lines-append [] l (joined ls) h.0)
        (rw (console_lines-joined ls h.1) (ap (λ x. (l ∷ ls) ++ x) (read_console-at_once ls h.1)))))
