-- ===== src/Record/Succeeds.antt =====
-- internal/record/record.go, write: a write succeeds when the operating system refuses nothing.
use mathlib.Core.Path.{subst}
use aladdin_solver_engine.Prelude.{
  Bool-cases, Error, List, Option, Option-cases, Text, [], ap, inl, inr, length, length-append,
  none, refl, some, sym, text_eq, true, ℕ, ◌++◌, ◌+◌, ◌==◌, ◌∷◌, ◌≡◌,
}
use aladdin_solver_engine.Record.{
  Answers, Done, File, Handle, Recorder, after, and_then, append_line, auctions_file, close_file,
  close_locked, for_day, handle_of, newline, notifs_file, open_file_of, path_of, rotate_locked,
  write,
}
use aladdin_solver_engine.Record.Recorded.{set_handle-some}

-- No call fails, and the bytes are all written.
abbrev pub Favours : Answers → List ℕ → Type 0
Favours answers content =
    (answers.closing.close_auctions ≡ none)
    × (answers.closing.close_notifs ≡ none)
    × (answers.open_file ≡ none)
    × (answers.chmod ≡ none)
    × (answers.write_error ≡ none)
    × ((answers.written == length content + 1) ≡ true)

close_file-errors :
    (file : File) (answer : Option Error) (r : Recorder)
    → answer ≡ none
    → (close_file file answer r).errors ≡ []
unfolding close_file
close_file-errors file answer r h = elim (Option-cases (handle_of file r)) [
  | inl e ↦ rw (close_file, e) refl
  | inr (held, e) ↦ rw (close_file, e, h) refl
]

for_day-errors :
    (answers : Answers) (day : Text) (r : Recorder)
    → answers.closing.close_auctions ≡ none
    → answers.closing.close_notifs ≡ none
    → (for_day answers day r).errors ≡ []
unfolding for_day rotate_locked close_locked
for_day-errors answers day r a n = elim (Bool-cases (text_eq day r.day)) [
  | inl e ↦ rw (for_day, e) refl
  | inr e ↦
      let first = close_file-errors auctions_file answers.closing.close_auctions r a in
      let second =
        close_file-errors notifs_file answers.closing.close_notifs
          (close_file auctions_file answers.closing.close_auctions r).recorder n in
      rw (for_day, e, first, second) refl
]

open_file_of-errors :
    (answers : Answers) (file : File) (day : Text) (r : Recorder)
    → answers.open_file ≡ none
    → answers.chmod ≡ none
    → ((open_file_of answers file day r).errors ≡ [])
      × ((h : Handle) × (handle_of file (open_file_of answers file day r).recorder ≡ some h))
unfolding open_file_of
open_file_of-errors answers file day r o c = elim (Option-cases (handle_of file r)) [
  | inl e ↦
      rw (open_file_of, e, o, c)
        (refl, (path_of r.dir file day, set_handle-some file (path_of r.dir file day) r))
  | inr (h, e) ↦ rw (open_file_of, e) (refl, (h, e))
]

and_then-ok :
    (first : Done) (next : Recorder → Done)
    → first.errors ≡ []
    → and_then first next ≡ after first (next first.recorder)
unfolding and_then
and_then-ok first next h =
    let second = next first.recorder in
    rw (and_then, h)
      (ap
        (λ es. record {
          recorder = second.recorder;
          events = first.events ++ second.events;
          errors = es ++ second.errors;
        })
        h)

append_line-errors :
    (answers : Answers) (file : File) (h : Handle) (line : List ℕ) (r : Recorder)
    → handle_of file r ≡ some h
    → answers.write_error ≡ none
    → (answers.written == length line) ≡ true
    → (append_line answers file line r).errors ≡ []
unfolding append_line
append_line-errors answers file h line r held w whole = rw (append_line, held, w, whole) refl

-- A write reports no error if the operating system refuses none of its calls and writes all its
-- bytes, whatever the recorder holds, after a failure and on a new day too.
pub write-succeeds :
    (answers : Answers) (file : File) (day : Text) (content : List ℕ) (r : Recorder)
    → Favours answers content
    → (write answers file day content r).errors ≡ []
unfolding write
write-succeeds answers file day content r (a, n, o, c, w, whole) =
    let line = content ++ (newline ∷ []) in
    let started = for_day answers day r in
    let ready = open_file_of answers file day started.recorder in
    let first = for_day-errors answers day r a n in
    let (second, (h, held)) = open_file_of-errors answers file day started.recorder o c in
    let more = length-append content (newline ∷ []) in
    let full : (answers.written == length line) ≡ true = rw more whole in
    let both : (after started ready).errors ≡ [] = rw (first, second) refl in
    let third = append_line-errors answers file h line ready.recorder held w full in
    let opening = and_then-ok started (open_file_of answers file day) first in
    let all = and_then-ok (after started ready) (append_line answers file line) both in
    subst (λ d. (and_then d (append_line answers file line)).errors ≡ []) (sym opening)
      (subst (λ d. d.errors ≡ []) (sym all) (rw (both, third) refl))
