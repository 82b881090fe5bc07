-- ===== src/Record/Write.antt =====
-- internal/record/record.go, write: one line, in the file of its day.
use mathlib.Core.List.{append_assoc}
use aladdin_solver_engine.Prelude.{
  Bool, Bool-cases, Error, List, Option, Option-cases, Text, [], ap, if◌then◌else◌, inl, inr, refl,
  sym, text_eq, ℕ, ◌&&◌, ◌++◌, ◌∙◌, ◌∷◌, ◌≡◌,
}
use aladdin_solver_engine.Record.{
  Answers, Event, File, FilePath, Recorder, appended, auctions_file, close_file, close_locked,
  closed, for_day, handle_of, notifs_file, open_file_of, opened, rotate_locked,
}

unfoldable pub path_eq : FilePath → FilePath → Bool
path_eq p q = text_eq p.dir q.dir && text_eq p.name q.name

-- The bytes that the events append to a file.
unfoldable pub contents : FilePath → List Event → List ℕ
contents p [] = []
contents p (opened h ∷ es) = contents p es
contents p (closed h ∷ es) = contents p es
contents p (appended h bytes ∷ es) =
    let rest = contents p es in if path_eq h p then bytes ++ rest else rest

pub contents-append :
    (p : FilePath) (es fs : List Event) → contents p (es ++ fs) ≡ contents p es ++ contents p fs
unfolding contents
contents-append p [] fs = refl
contents-append p (opened h ∷ es) fs = contents-append p es fs
contents-append p (closed h ∷ es) fs = contents-append p es fs
contents-append p (appended h bytes ∷ es) fs = elim (Bool-cases (path_eq h p)) [
  | inl e ↦
      rw (contents, e)
        (ap (λ t. bytes ++ t) (contents-append p es fs)
          ∙ sym (append_assoc bytes (contents p es) (contents p fs)))
  | inr e ↦ rw (contents, e) (contents-append p es fs)
]

-- The events append to no file.
abbrev pub IsSilent : List Event → Type 0
IsSilent es = (p : FilePath) → contents p es ≡ []

close_file-IsSilent :
    (file : File) (answer : Option Error) (r : Recorder)
    → IsSilent (close_file file answer r).events
unfolding close_file contents
close_file-IsSilent file answer r p = elim (Option-cases (handle_of file r)) [
  | inl e ↦ rw (close_file, e) refl
  | inr (h, e) ↦ rw (close_file, e) refl
]

pub IsSilent-append : (es fs : List Event) → IsSilent es → IsSilent fs → IsSilent (es ++ fs)
IsSilent-append es fs h k p = contents-append p es fs ∙ rw (h p) (k p)

pub for_day-IsSilent :
    (answers : Answers) (day : Text) (r : Recorder) → IsSilent (for_day answers day r).events
unfolding for_day rotate_locked close_locked contents
for_day-IsSilent answers day r p = elim (Bool-cases (text_eq day r.day)) [
  | inl e ↦ rw (for_day, e) refl
  | inr e ↦
      let first = close_file auctions_file answers.closing.close_auctions r in
      rw (for_day, e)
        (IsSilent-append first.events
          (close_file notifs_file answers.closing.close_notifs first.recorder).events
          (close_file-IsSilent auctions_file answers.closing.close_auctions r)
          (close_file-IsSilent notifs_file answers.closing.close_notifs first.recorder) p)
]

pub open_file_of-IsSilent :
    (answers : Answers) (file : File) (day : Text) (r : Recorder)
    → IsSilent (open_file_of answers file day r).events
unfolding open_file_of contents
open_file_of-IsSilent answers file day r p = elim (Option-cases (handle_of file r)) [
  | inr (held, s) ↦ rw (open_file_of, s) refl
  | inl s ↦ elim (Option-cases answers.open_file) [
    | inr (problem, o) ↦ rw (open_file_of, s, o) refl
    | inl o ↦ elim (Option-cases answers.chmod) [
      | inr (problem, c) ↦ rw (open_file_of, s, o, c) refl
      | inl c ↦ rw (open_file_of, s, o, c) refl
    ]
  ]
]
