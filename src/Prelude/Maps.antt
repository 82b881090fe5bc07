-- ===== src/Prelude/Maps.antt =====
-- Go maps with text keys as association lists, in the order in which they are walked, and sets of
-- texts as lists.
use mathlib.Core.Bool.{Bool, true, false, not, ◌&&◌, ◌||◌}
use mathlib.Core.List.{List, [], ◌∷◌}
use mathlib.Core.Option.{Option, none, some}
use aladdin_solver_engine.Prelude.Tests.{if◌then◌else◌}
use aladdin_solver_engine.Prelude.Strings.{Text, text_eq, text_ltb}

-- `_, ok := set[s]`.
unfoldable pub mem_text : Text → List Text → Bool
mem_text s [] = false
mem_text s (t ∷ ts) = text_eq s t || mem_text s ts

-- No text of the list is in it twice.
unfoldable pub all_distinct : List Text → Bool
all_distinct [] = true
all_distinct (t ∷ ts) = not (mem_text t ts) && all_distinct ts

module _ {ℓ} {A : Type ℓ} where
  unfoldable pub map_get : List (Text × A) → Text → Option A
  map_get [] key = none
  map_get ((k, v) ∷ rest) key = if text_eq k key then some v else map_get rest key

  -- `m[key] = value`: in place if the key is there.
  unfoldable pub map_put : List (Text × A) → Text → A → List (Text × A)
  map_put [] key value = (key, value) ∷ []
  map_put ((k, v) ∷ rest) key value =
      let rest' = map_put rest key value in
      if text_eq k key then (key, value) ∷ rest else (k, v) ∷ rest'

  unfoldable pub map_delete : List (Text × A) → Text → List (Text × A)
  map_delete [] key = []
  map_delete ((k, v) ∷ rest) key =
      let rest' = map_delete rest key in if text_eq k key then rest' else (k, v) ∷ rest'

  abbrev pub keys : List (Text × A) → List Text
  keys [] = []
  keys ((k, v) ∷ rest) = k ∷ keys rest

  abbrev pub has_key : List (Text × A) → Text → Bool
  has_key m key = mem_text key (keys m)

insert_text : Text → List Text → List Text
insert_text t [] = t ∷ []
insert_text t (u ∷ us) = let us' = insert_text t us in if text_ltb u t then u ∷ us' else t ∷ u ∷ us

-- `sort.Strings`.
unfoldable pub sort_texts : List Text → List Text
unfolding insert_text
sort_texts [] = []
sort_texts (t ∷ ts) = insert_text t (sort_texts ts)
