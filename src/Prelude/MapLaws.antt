-- ===== src/Prelude/MapLaws.antt =====
-- Laws of the maps with text keys: a key that is deleted or absent.
use mathlib.Core.Path.{◌≡◌, refl, ap}
use mathlib.Core.Logic.{inl, inr}
use mathlib.Core.Bool.{false}
use mathlib.Core.List.{List, [], ◌∷◌, ◌++◌}
use mathlib.Core.Option.{none}
use aladdin_solver_engine.Prelude.Tests.{Bool-cases}
use aladdin_solver_engine.Prelude.Strings.{Text, text_eq}
use aladdin_solver_engine.Prelude.Maps.{map_delete, map_get, map_put}

module _ {A : Type 0} where
  -- The key is not in the map.
  abbrev pub Lacks : List (Text × A) → Text → Type 0
  Lacks m key = map_get m key ≡ none

  rest-Lacks :
      (k : Text) (v : A) (m : List (Text × A)) (key : Text)
      → text_eq k key ≡ false
      → Lacks ((k, v) ∷ m) key
      → Lacks m key
  unfolding map_get
  rest-Lacks k v m key e h = rw (map_get, e) at h

  cons-Lacks :
      (k : Text) (v : A) (m : List (Text × A)) (key : Text)
      → text_eq k key ≡ false
      → Lacks m key
      → Lacks ((k, v) ∷ m) key
  unfolding map_get
  cons-Lacks k v m key e h = rw (map_get, e) h

  first-Lacks :
      (k : Text) (v : A) (m : List (Text × A)) (key : Text)
      → Lacks ((k, v) ∷ m) key
      → text_eq k key ≡ false
  unfolding map_get
  first-Lacks k v m key h = elim (Bool-cases (text_eq k key)) [
    | inr e ↦ e
    | inl e ↦ let clash = rw (map_get, e) at h in cc
  ]

  pub map_delete-Lacks : (m : List (Text × A)) (key : Text) → Lacks (map_delete m key) key
  unfolding map_delete map_get
  map_delete-Lacks [] key = refl
  map_delete-Lacks ((k, v) ∷ m) key = elim (Bool-cases (text_eq k key)) [
    | inl e ↦ rw (map_delete, e) (map_delete-Lacks m key)
    | inr e ↦ rw (map_delete, e) (cons-Lacks k v (map_delete m key) key e (map_delete-Lacks m key))
  ]

  pub map_delete-keeps_Lacks :
      (m : List (Text × A)) (other key : Text) → Lacks m key → Lacks (map_delete m other) key
  unfolding map_delete map_get
  map_delete-keeps_Lacks [] other key h = refl
  map_delete-keeps_Lacks ((k, v) ∷ m) other key h =
      let differs = first-Lacks k v m key h in
      let later = map_delete-keeps_Lacks m other key (rest-Lacks k v m key differs h) in
      elim (Bool-cases (text_eq k other)) [
        | inl e ↦ rw (map_delete, e) later
        | inr e ↦ rw (map_delete, e) (cons-Lacks k v (map_delete m other) key differs later)
      ]

  pub map_put-append :
      (m : List (Text × A)) (key : Text) (v : A)
      → Lacks m key
      → map_put m key v ≡ m ++ ((key, v) ∷ [])
  unfolding map_put
  map_put-append [] key v h = refl
  map_put-append ((k, w) ∷ m) key v h =
      let differs = first-Lacks k w m key h in
      rw (map_put, differs)
        (ap (λ t. (k, w) ∷ t) (map_put-append m key v (rest-Lacks k w m key differs h)))

  pub map_get-append :
      (m xs : List (Text × A)) (key : Text) → Lacks m key → map_get (m ++ xs) key ≡ map_get xs key
  unfolding map_get
  map_get-append [] xs key h = refl
  map_get-append ((k, w) ∷ m) xs key h =
      let differs = first-Lacks k w m key h in
      rw (map_get, differs) (map_get-append m xs key (rest-Lacks k w m key differs h))

  pub map_delete-append :
      (m xs : List (Text × A)) (key : Text)
      → Lacks m key
      → map_delete (m ++ xs) key ≡ m ++ map_delete xs key
  unfolding map_delete
  map_delete-append [] xs key h = refl
  map_delete-append ((k, w) ∷ m) xs key h =
      let differs = first-Lacks k w m key h in
      rw (map_delete, differs)
        (ap (λ t. (k, w) ∷ t) (map_delete-append m xs key (rest-Lacks k w m key differs h)))
