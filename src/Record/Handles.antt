-- ===== src/Record/Handles.antt =====
-- internal/record/record.go: the files held after each call.
use aladdin_solver_engine.Prelude.{
  Bool-cases, Error, Option, Option-cases, Text, [], arith, inl, inr, none, refl, some, sym,
  text_eq, text_eq_iff, ◌∙◌, ◌∷◌, ◌≡◌,
}
use aladdin_solver_engine.Record.{
  Answers, Closing, Done, File, Recorder, auctions_file, close_file, close_locked, for_day,
  handle_of, notifs_file, open_file_of, opened, path_of, rotate_locked, set_handle,
}
use aladdin_solver_engine.Record.Days.{Balances, IsCurrent, after-Balances}

close_file-Balances :
    (file : File) (answer : Option Error) (r : Recorder) → Balances r (close_file file answer r)
unfolding close_file handle_of set_handle
close_file-Balances auctions_file answer r = elim (Option-cases r.auctions) [
  | inl e ↦ rw (close_file, e) (rw e (omega arith), refl)
  | inr (h, e) ↦ rw (close_file, e) (omega arith, refl)
]
close_file-Balances notifs_file answer r = elim (Option-cases r.notifs) [
  | inl e ↦ rw (close_file, e) (rw e (omega arith), refl)
  | inr (h, e) ↦ rw (close_file, e) (omega arith, refl)
]

close_file-none :
    (file : File) (answer : Option Error) (r : Recorder)
    → handle_of file (close_file file answer r).recorder ≡ none
unfolding close_file handle_of set_handle
close_file-none auctions_file answer r = elim (Option-cases r.auctions) [
  | inl e ↦ rw (close_file, e) e
  | inr (h, e) ↦ rw (close_file, e) refl
]
close_file-none notifs_file answer r = elim (Option-cases r.notifs) [
  | inl e ↦ rw (close_file, e) e
  | inr (h, e) ↦ rw (close_file, e) refl
]

closed_notifs-auctions :
    (answer : Option Error) (r : Recorder)
    → (close_file notifs_file answer r).recorder.auctions ≡ r.auctions
unfolding close_file handle_of set_handle
closed_notifs-auctions answer r = elim (Option-cases r.notifs) [
  | inl e ↦ rw (close_file, e) refl
  | inr (h, e) ↦ rw (close_file, e) refl
]

pub close_locked-none :
    (answers : Closing) (r : Recorder)
    → ((close_locked answers r).recorder.auctions ≡ none)
      × ((close_locked answers r).recorder.notifs ≡ none)
unfolding close_locked handle_of
close_locked-none answers r =
    let first = close_file auctions_file answers.close_auctions r in
    (
      closed_notifs-auctions answers.close_notifs first.recorder
          ∙ close_file-none auctions_file answers.close_auctions r,
      close_file-none notifs_file answers.close_notifs first.recorder,
    )

close_locked-Balances : (answers : Closing) (r : Recorder) → Balances r (close_locked answers r)
unfolding close_locked
close_locked-Balances answers r =
    let first = close_file auctions_file answers.close_auctions r in
    after-Balances r first (close_file notifs_file answers.close_notifs first.recorder)
      (close_file-Balances auctions_file answers.close_auctions r)
      (close_file-Balances notifs_file answers.close_notifs first.recorder)

-- The files held are those of the day, every file opened is held or closed, and the day is the given
-- one.
abbrev pub IsKept : Text → Recorder → Done → Type 0
IsKept day r d = IsCurrent d.recorder × Balances r d × (d.recorder.day ≡ day)

no_files : (r : Recorder) → r.auctions ≡ none → r.notifs ≡ none → IsCurrent r
no_files r a n = rw (a, n) (tt, tt)

rotate_locked-IsKept :
    (answers : Closing) (day : Text) (r : Recorder) → IsKept day r (rotate_locked answers day r)
unfolding rotate_locked
rotate_locked-IsKept answers day r =
    let (a, n) = close_locked-none answers r in
    (no_files (rotate_locked answers day r).recorder a n, close_locked-Balances answers r, refl)

pub for_day-IsKept :
    (answers : Answers) (day : Text) (r : Recorder)
    → IsCurrent r
    → IsKept day r (for_day answers day r)
unfolding for_day
for_day-IsKept answers day r h = elim (Bool-cases (text_eq day r.day)) [
  | inl e ↦
      let same : day ≡ r.day = (text_eq_iff day r.day).0 e in
      rw (for_day, e) (h, (refl, refl), sym same)
  | inr e ↦ rw (for_day, e) (rotate_locked-IsKept answers.closing day r)
]

-- A file that was not held is opened at its path.
opened-IsKept :
    (file : File) (day : Text) (r : Recorder)
    → IsCurrent r
    → handle_of file r ≡ none
    → r.day ≡ day
    → IsKept day r (record {
      recorder = set_handle file (some (path_of r.dir file day)) r;
      events = opened (path_of r.dir file day) ∷ [];
      errors = [];
    })
unfolding handle_of set_handle
opened-IsKept auctions_file day r (ha, hn) s e = ((rw e refl, hn), (rw s (omega arith), refl), e)
opened-IsKept notifs_file day r (ha, hn) s e = ((ha, rw e refl), (rw s (omega arith), refl), e)

pub open_file_of-IsKept :
    (answers : Answers) (file : File) (day : Text) (r : Recorder)
    → IsCurrent r
    → r.day ≡ day
    → IsKept day r (open_file_of answers file day r)
unfolding open_file_of
open_file_of-IsKept answers file day r h e = elim (Option-cases (handle_of file r)) [
  | inr (held, s) ↦ rw (open_file_of, s) (h, (refl, refl), e)
  | inl s ↦ elim (Option-cases answers.open_file) [
    | inr (problem, o) ↦ rw (open_file_of, s, o) (h, (refl, refl), e)
    | inl o ↦ elim (Option-cases answers.chmod) [
      | inr (problem, c) ↦ rw (open_file_of, s, o, c) (h, (refl, refl), e)
      | inl c ↦ rw (open_file_of, s, o, c) (opened-IsKept file day r h s e)
    ]
  ]
]
