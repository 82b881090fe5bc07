-- ===== src/Record/Days.antt =====
-- internal/record/record.go: the files that a recorder holds.
use aladdin_solver_engine.Prelude.{
  Error, List, Option, [], arith, inl, inr, none, refl, some, ℕ, ◌++◌, ◌+◌, ◌∙◌, ◌∷◌, ◌≡◌, ◌⊎◌,
}
use aladdin_solver_engine.Record.{
  Done, Event, FilePath, Handle, Recorder, after, and_then, appended, auctions_file, closed,
  notifs_file, opened, path_of,
}

-- A file that is open is the one at the path.
abbrev pub At : FilePath → Option Handle → Type 0
At path none = Unit
At path (some h) = h ≡ path

-- The open files are those of the recorder's day.
abbrev pub IsCurrent : Recorder → Type 0
IsCurrent r =
    At (path_of r.dir auctions_file r.day) r.auctions
    × At (path_of r.dir notifs_file r.day) r.notifs

pub errors-cases :
    (es : List Error) → (es ≡ []) ⊎ ((e : Error) × (rest : List Error) × (es ≡ e ∷ rest))
errors-cases [] = inl refl
errors-cases (e ∷ es) = inr (e, es, refl)

-- What both calls keep holds after the chain.
pub and_then-keeps :
    (P : Done → Type 0) (first : Done) (next : Recorder → Done)
    → P first
    → P (after first (next first.recorder))
    → P (and_then first next)
unfolding and_then
and_then-keeps P first next p q = elim (errors-cases first.errors) [
  | inl none_failed ↦ rw (and_then, none_failed) q
  | inr (e, es, failed) ↦ rw (and_then, failed) p
]

-- The number of files open.
abbrev open_count : Option Handle → ℕ
open_count none = 0
open_count (some h) = 1

abbrev pub open_files : Recorder → ℕ
open_files r = open_count r.auctions + open_count r.notifs

abbrev pub opened_in : List Event → ℕ
opened_in [] = 0
opened_in (opened h ∷ es) = 1 + opened_in es
opened_in (closed h ∷ es) = opened_in es
opened_in (appended h bytes ∷ es) = opened_in es

abbrev pub closed_in : List Event → ℕ
closed_in [] = 0
closed_in (opened h ∷ es) = closed_in es
closed_in (closed h ∷ es) = 1 + closed_in es
closed_in (appended h bytes ∷ es) = closed_in es

-- Every file is closed or still held.
abbrev pub Balances : Recorder → Done → Type 0
Balances r d =
    (open_files r + opened_in d.events ≡ open_files d.recorder + closed_in d.events)
    × (d.recorder.dir ≡ r.dir)

opened_in-append : (es fs : List Event) → opened_in (es ++ fs) ≡ opened_in es + opened_in fs
opened_in-append [] fs = omega arith
opened_in-append (opened h ∷ es) fs = let k = opened_in-append es fs in omega (arith, k)
opened_in-append (closed h ∷ es) fs = opened_in-append es fs
opened_in-append (appended h bytes ∷ es) fs = opened_in-append es fs

closed_in-append : (es fs : List Event) → closed_in (es ++ fs) ≡ closed_in es + closed_in fs
closed_in-append [] fs = omega arith
closed_in-append (opened h ∷ es) fs = closed_in-append es fs
closed_in-append (closed h ∷ es) fs = let k = closed_in-append es fs in omega (arith, k)
closed_in-append (appended h bytes ∷ es) fs = closed_in-append es fs

pub after-Balances :
    (r : Recorder) (d e : Done) → Balances r d → Balances d.recorder e → Balances r (after d e)
after-Balances r d e (h, dir) (k, dir') =
    let o = opened_in-append d.events e.events in
    let c = closed_in-append d.events e.events in (omega (arith, h, k, o, c), dir' ∙ dir)
