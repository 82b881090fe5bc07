-- ===== src/Record/Recorded.antt =====
-- internal/record/record.go, write: what a write leaves, whatever the operating system answers.
use mathlib.Core.List.{append-nil}
use mathlib.Core.Path.{subst}
use aladdin_solver_engine.Prelude.{
  Bool-cases, Error, List, Option, Option-cases, Text, [], ap, arith, if◌then◌else◌, inl, inr,
  length, none, refl, some, take, text_eq, ℕ, ◌++◌, ◌==◌, ◌∷◌, ◌≡◌, ◌⊎◌,
}
use aladdin_solver_engine.Record.{
  Answers, Done, Event, File, FilePath, Handle, Recorder, after, and_then, append_line, appended,
  auctions_file, closed, for_day, handle_of, newline, notifs_file, open_file_of, path_of,
  rotate_locked, set_handle, write,
}
use aladdin_solver_engine.Record.Days.{At, IsCurrent, after-Balances, errors-cases}
use aladdin_solver_engine.Record.Handles.{
  IsKept, close_locked-none, for_day-IsKept, open_file_of-IsKept,
}
use aladdin_solver_engine.Record.Write.{
  IsSilent, IsSilent-append, contents, contents-append, for_day-IsSilent, open_file_of-IsSilent,
  path_eq,
}

-- A call has failed.
abbrev Fails : Done → Type 0
Fails d = (e : Error) × (rest : List Error) × (d.errors ≡ e ∷ rest)

handle_of-none :
    (file : File) (r : Recorder) → r.auctions ≡ none → r.notifs ≡ none → handle_of file r ≡ none
unfolding handle_of
handle_of-none auctions_file r a n = a
handle_of-none notifs_file r a n = n

-- A day's files could not be closed: none is held.
for_day-failed :
    (answers : Answers) (file : File) (day : Text) (r : Recorder)
    → Fails (for_day answers day r)
    → handle_of file (for_day answers day r).recorder ≡ none
unfolding for_day rotate_locked
for_day-failed answers file day r (e, es, failed) = elim (Bool-cases (text_eq day r.day)) [
  | inl same ↦ let clash = rw (for_day, same) at failed in cc
  | inr other ↦
      let (a, n) = close_locked-none answers.closing r in
      rw (for_day, other) (handle_of-none file (rotate_locked answers.closing day r).recorder a n)
]

pub set_handle-some :
    (file : File) (h : Handle) (r : Recorder) → handle_of file (set_handle file (some h) r) ≡ some h
unfolding handle_of set_handle
set_handle-some auctions_file h r = refl
set_handle-some notifs_file h r = refl

set_handle-none : (file : File) (r : Recorder) → handle_of file (set_handle file none r) ≡ none
unfolding handle_of set_handle
set_handle-none auctions_file r = refl
set_handle-none notifs_file r = refl

held_or : Handle → Option Handle → Handle
held_or d none = d
held_or d (some h) = h

At-some : (path : FilePath) (h : Handle) (o : Option Handle) → At path o → o ≡ some h → h ≡ path
unfolding held_or
At-some path h none a e = cc
At-some path h (some k) a e = subst (λ j. j ≡ path) (ap (held_or k) e) a

held-current :
    (file : File) (h : Handle) (r : Recorder)
    → IsCurrent r
    → handle_of file r ≡ some h
    → h ≡ path_of r.dir file r.day
unfolding handle_of
held-current auctions_file h r (ha, hn) e =
    At-some (path_of r.dir auctions_file r.day) h r.auctions ha e
held-current notifs_file h r (ha, hn) e = At-some (path_of r.dir notifs_file r.day) h r.notifs hn e

-- Success: the file of the day is held. Failure: no file is.
abbrev Opens : File → FilePath → Done → Type 0
Opens file path d =
    ((d.errors ≡ []) × (handle_of file d.recorder ≡ some path))
    ⊎ (Fails d × (handle_of file d.recorder ≡ none))

open_file_of-Opens :
    (answers : Answers) (file : File) (day : Text) (r : Recorder)
    → IsCurrent r
    → r.day ≡ day
    → Opens file (path_of r.dir file day) (open_file_of answers file day r)
unfolding open_file_of
open_file_of-Opens answers file day r h e = elim (Option-cases (handle_of file r)) [
  | inr (held, s) ↦
      let current = held-current file held r h s in
      rw (open_file_of, s) (inl (refl, rw (s, current, e) refl))
  | inl s ↦ elim (Option-cases answers.open_file) [
    | inr (problem, o) ↦ rw (open_file_of, s, o) (inr ((problem, [], refl), s))
    | inl o ↦ elim (Option-cases answers.chmod) [
      | inr (problem, c) ↦ rw (open_file_of, s, o, c) (inr ((problem, [], refl), s))
      | inl c ↦
          rw (open_file_of, s, o, c) (inl (refl, set_handle-some file (path_of r.dir file day) r))
    ]
  ]
]

-- A file that is held is closed and forgotten.
forgotten-IsKept :
    (file : File) (day : Text) (h : Handle) (bytes : List ℕ) (errors : List Error) (r : Recorder)
    → IsCurrent r
    → r.day ≡ day
    → handle_of file r ≡ some h
    → IsKept day r (record {
      recorder = set_handle file none r;
      events = appended h bytes ∷ closed h ∷ [];
      errors = errors;
    })
unfolding handle_of set_handle
forgotten-IsKept auctions_file day h bytes errors r (ha, hn) e s =
    ((tt, hn), (rw s (omega arith), refl), e)
forgotten-IsKept notifs_file day h bytes errors r (ha, hn) e s =
    ((ha, tt), (rw s (omega arith), refl), e)

-- Success: the line is appended. Failure: the file is not held any more.
abbrev Appends : File → FilePath → List ℕ → Done → Type 0
Appends file path line d =
    ((d.errors ≡ []) × (d.events ≡ appended path line ∷ [])) ⊎ (handle_of file d.recorder ≡ none)

append_line-Appends :
    (answers : Answers) (file : File) (day : Text) (path : FilePath) (line : List ℕ) (r : Recorder)
    → IsCurrent r
    → r.day ≡ day
    → handle_of file r ≡ some path
    → IsKept day r (append_line answers file line r)
      × Appends file path line (append_line answers file line r)
unfolding append_line
append_line-Appends answers file day path line r h e s = elim (Option-cases answers.write_error) [
  | inr (problem, w) ↦
      rw (append_line, s, w)
        (
          forgotten-IsKept file day path (take answers.written line) [] r h e s,
          inr (set_handle-none file r),
        )
  | inl w ↦ elim (Bool-cases (answers.written == length line)) [
    | inl whole ↦ rw (append_line, s, w, whole) ((h, (omega arith, refl), e), inl (refl, refl))
    | inr short ↦
        rw (append_line, s, w, short)
          (
            forgotten-IsKept file day path (take answers.written line) [] r h e s,
            inr (set_handle-none file r),
          )
  ]
]

-- The file of the day is held, or the call has failed and no file is; nothing is appended.
abbrev IsReady : File → Text → Recorder → Done → Type 0
IsReady file day r d = IsKept day r d × IsSilent d.events × Opens file (path_of r.dir file day) d

after-IsKept :
    (day : Text) (r : Recorder) (d e : Done)
    → IsKept day r d
    → IsKept day d.recorder e
    → IsKept day r (after d e)
after-IsKept day r d e (current, balance, same) (current', balance', same') =
    (current', after-Balances r d e balance balance', same')

Opens-after :
    (file : File) (path path' : FilePath) (first second : Done)
    → first.errors ≡ []
    → path ≡ path'
    → Opens file path second
    → Opens file path' (after first second)
Opens-after file path path' first second fine same (inl (e, s)) =
    inl (rw (fine, e) refl, rw (← same) s)
Opens-after file path path' first second fine same (inr ((x, xs, e), s)) =
    inr ((x, xs, rw (fine, e) refl), s)

opening-IsReady :
    (answers : Answers) (file : File) (day : Text) (r : Recorder)
    → IsCurrent r
    → IsReady file day r (and_then (for_day answers day r) (open_file_of answers file day))
unfolding and_then
opening-IsReady answers file day r h =
    let first = for_day answers day r in
    let kept = for_day-IsKept answers day r h in
    let second = open_file_of answers file day first.recorder in
    elim (errors-cases first.errors) [
      | inr failed ↦
          rw (and_then, failed.2)
            (
              kept,
              for_day-IsSilent answers day r,
              inr (failed, for_day-failed answers file day r failed),
            )
      | inl fine ↦
          let opens = open_file_of-Opens answers file day first.recorder kept.0 kept.2 in
          rw (and_then, fine)
            (
              after-IsKept day r first second kept
                  (open_file_of-IsKept answers file day first.recorder kept.0 kept.2),
              IsSilent-append first.events second.events (for_day-IsSilent answers day r)
                  (open_file_of-IsSilent answers file day first.recorder),
              Opens-after file _ (path_of r.dir file day) first second fine
                  (ap (λ dir. path_of dir file day) kept.1.1) opens,
            )
    ]

-- The recorder stays in order, and either the call succeeds and appends just the line, to the file of
-- the day, or the file is not held any more, so that the next write opens it again.
abbrev pub IsRecorded : File → Text → List ℕ → Recorder → Done → Type 0
IsRecorded file day content r d =
    IsKept day r d
    × (((d.errors ≡ [])
          × ((p : FilePath)
              → contents p d.events
                ≡ (if path_eq (path_of r.dir file day) p then content ++ (newline ∷ []) else [])))
        ⊎ (handle_of file d.recorder ≡ none))

appended_only :
    (path p : FilePath) (line : List ℕ) (before : List Event)
    → IsSilent before
    → contents p (before ++ (appended path line ∷ [])) ≡ (if path_eq path p then line else [])
unfolding contents
appended_only path p line before silent =
    let all = contents-append p before (appended path line ∷ []) in
    elim (Bool-cases (path_eq path p)) [
      | inl e ↦ rw (all, silent p, e) (append-nil line)
      | inr e ↦ rw (all, silent p, e) refl
    ]

-- Whatever the operating system answers, a write leaves the recorder with files of its day only, and
-- with every file it has opened held or closed; and either it reports no error and has appended just
-- the content and a newline, to the file of its kind and day and to no other, or the file of its kind
-- is not held any more. The recorder holds files of its own day only before.
pub write-IsRecorded :
    (answers : Answers) (file : File) (day : Text) (content : List ℕ) (r : Recorder)
    → IsCurrent r
    → IsRecorded file day content r (write answers file day content r)
unfolding write and_then
write-IsRecorded answers file day content r h =
    let line = content ++ (newline ∷ []) in
    let path = path_of r.dir file day in
    let ready = and_then (for_day answers day r) (open_file_of answers file day) in
    let (kept, silent, opens) = opening-IsReady answers file day r h in
    elim opens [
      | inr ((e, es, failed), gone) ↦ rw (write, and_then, failed) (kept, inr gone)
      | inl (fine, held) ↦
          let last = append_line answers file line ready.recorder in
          let (kept', appends) =
            append_line-Appends answers file day path line ready.recorder kept.0 kept.2 held in
          let all = after-IsKept day r ready last kept kept' in
          rw (write, and_then, fine)
            (
              all,
              elim appends [
                | inr gone ↦ inr gone
                | inl (e, ev) ↦
                    inl (
                      rw (fine, e) refl,
                      λ p. rw ev (appended_only path p line ready.events silent),
                    )
              ],
            )
    ]
