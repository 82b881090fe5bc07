-- ===== src/Record.antt =====
-- internal/record/record.go: the recorder's files, one of a kind and a day. The mutex makes writes
-- follow one another; what the operating system answers is an argument of each.
pub mod Days
pub mod Handles
pub mod Write
pub mod Recorded
pub mod Succeeds
use aladdin_solver_engine.Prelude.{
  Bool, Error, List, Option, Result, Text, [], codes, empty_directory, err, false, if◌then◌else◌,
  length, nil_file, none, ok, short_write, some, take, text_eq, true, ℕ, ℤ, ◌++◌, ◌==◌, ◌∷◌,
}
use aladdin_solver_engine.Solve.Order.{Solution}
use aladdin_solver_engine.Solve.Engine.{Auction, SolveResult, Stats}

-- The path of a file, `filepath.Join(dir, name)`.
pub record FilePath : Type 0 where
  pub dir : Text
  pub name : Text

-- An open file, by its path.
abbrev pub Handle : Type 0
Handle = FilePath

-- An empty `day` is no day.
pub record Recorder : Type 0 where
  pub dir : Text
  pub day : Text
  pub auctions : Option Handle
  pub notifs : Option Handle
  pub keep_auctions : Bool

-- What `os.MkdirAll` and `os.Chmod` answer; `none` is no error.
unfoldable pub new : Text → Bool → Option Error → Option Error → Result Recorder
new [] keep_auctions made secured = err empty_directory
new (c ∷ cs) keep_auctions (some e) secured = err e
new (c ∷ cs) keep_auctions none (some e) = err e
new (c ∷ cs) keep_auctions none none = ok (record {
  dir = c ∷ cs;
  day = [];
  auctions = none;
  notifs = none;
  keep_auctions = keep_auctions;
})

pub record AuctionRecord : Type 0 where
  pub schema : Text
  pub timestamp : Text
  pub auction_id : Text
  pub elapsed_ms : ℤ
  pub stats : Stats
  pub solutions : Option (List Solution)
  pub auction : Option Auction

-- What `Recorder.Auction` encodes: the auction itself only if it is kept.
unfoldable pub auction_record : Recorder → Text → Text → Auction → SolveResult → ℤ → AuctionRecord
auction_record r timestamp id auction result elapsed_ms = record {
  schema = codes "aladdin-shadow-auction-record/v1";
  timestamp = timestamp;
  auction_id = id;
  elapsed_ms = elapsed_ms;
  stats = result.stats;
  solutions = result.solutions;
  auction = if r.keep_auctions then some auction else none;
}

-- The two kinds of file, `&r.auctions` and `&r.notifs`.
pub data File : Type 0 where
  auctions_file notifs_file : File

unfoldable pub handle_of : File → Recorder → Option Handle
handle_of auctions_file r = r.auctions
handle_of notifs_file r = r.notifs

-- `*file = handle`.
unfoldable pub set_handle : File → Option Handle → Recorder → Recorder
set_handle auctions_file h r = record r { auctions = h }
set_handle notifs_file h r = record r { notifs = h }

unfoldable pub name_of : File → Text
name_of auctions_file = codes "auctions"
name_of notifs_file = codes "notifications"

unfoldable pub path_of : Text → File → Text → FilePath
path_of dir file day = record {
  dir = dir;
  name = name_of file ++ (codes "-" ++ (day ++ codes ".jsonl"));
}

-- What reaches the file system: a file is opened or closed, bytes are appended to it.
pub data Event : Type 0 where
  opened closed : Handle → Event
  appended : Handle → List ℕ → Event

-- A recorder after a call, what the call did, and its errors, `errors.Join` of them: none is success.
pub record Done : Type 0 where
  pub recorder : Recorder
  pub events : List Event
  pub errors : List Error

abbrev errors_of : Option Error → List Error
errors_of none = []
errors_of (some e) = e ∷ []

-- A round of the loop of `closeLocked`.
unfoldable pub close_file : File → Option Error → Recorder → Done
close_file file answer r = elim (handle_of file r) [
  | none ↦ record { recorder = r; events = []; errors = [] }
  | some h ↦ record {
    recorder = set_handle file none r;
    events = closed h ∷ [];
    errors = errors_of answer;
  }
]

-- The events and errors of two calls, one after the other.
abbrev pub after : Done → Done → Done
after first second = record {
  recorder = second.recorder;
  events = first.events ++ second.events;
  errors = first.errors ++ second.errors;
}

-- What the system answers to the two calls of `Close`.
pub record Closing : Type 0 where
  pub close_auctions : Option Error
  pub close_notifs : Option Error

unfoldable pub close_locked : Closing → Recorder → Done
close_locked answers r =
    let first = close_file auctions_file answers.close_auctions r in
    after first (close_file notifs_file answers.close_notifs first.recorder)

unfoldable pub rotate_locked : Closing → Text → Recorder → Done
rotate_locked answers day r =
    let closed_files = close_locked answers r in
    record closed_files { recorder = record closed_files.recorder { day = day } }

-- `Close`.
unfoldable pub close : Closing → Recorder → Done
close answers r = rotate_locked answers [] r

-- What the system answers to the calls of a write: the closing at midnight, the opening, the setting
-- of the mode, the closing after that has failed, the number of bytes written and the error, and the
-- closing after a write that has failed.
pub record Answers : Type 0 where
  pub closing : Closing
  pub open_file : Option Error
  pub chmod : Option Error
  pub written : ℕ
  pub write_error : Option Error
  pub close_failed : Option Error

-- The files of the day: those of another day are closed.
unfoldable pub for_day : Answers → Text → Recorder → Done
for_day answers day r =
    if text_eq day r.day
    then record { recorder = r; events = []; errors = [] }
    else rotate_locked answers.closing day r

-- The file is opened unless it is open.
unfoldable pub open_file_of : Answers → File → Text → Recorder → Done
open_file_of answers file day r = elim (handle_of file r) [
  | some h ↦ record { recorder = r; events = []; errors = [] }
  | none ↦
      let path = path_of r.dir file day in
      elim answers.open_file [
        | some e ↦ record { recorder = r; events = []; errors = e ∷ [] }
        | none ↦ elim answers.chmod [
          | some e ↦ record {
            recorder = r;
            events = opened path ∷ closed path ∷ [];
            errors = e ∷ [];
          }
          | none ↦ record {
            recorder = set_handle file (some path) r;
            events = opened path ∷ [];
            errors = [];
          }
        ]
      ]
]

-- The line is appended as a whole, or the file is closed and forgotten.
unfoldable pub append_line : Answers → File → List ℕ → Recorder → Done
append_line answers file line r = elim (handle_of file r) [
  | none ↦ record { recorder = r; events = []; errors = nil_file ∷ [] }
  | some h ↦ elim answers.write_error [
    | some e ↦ record {
      recorder = set_handle file none r;
      events = appended h (take answers.written line) ∷ closed h ∷ [];
      errors = e ∷ errors_of answers.close_failed;
    }
    | none ↦ elim (answers.written == length line) [
      | true ↦ record { recorder = r; events = appended h line ∷ []; errors = [] }
      | false ↦ record {
        recorder = set_handle file none r;
        events = appended h (take answers.written line) ∷ closed h ∷ [];
        errors = short_write ∷ errors_of answers.close_failed;
      }
    ]
  ]
]

-- What follows a call, unless that has failed.
unfoldable pub and_then : Done → (Recorder → Done) → Done
and_then first next = elim first.errors [ [] ↦ after first (next first.recorder) | e ∷ es ↦ first ]

abbrev pub newline : ℕ
newline = 10

unfoldable pub write : Answers → File → Text → List ℕ → Recorder → Done
write answers file day content r =
    and_then (and_then (for_day answers day r) (open_file_of answers file day))
      (append_line answers file (content ++ (newline ∷ [])))
