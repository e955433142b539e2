-- ===== src/Base/Options.antt =====
-- Optional values: the first that is there, and their lists.
use mathlib.Core.Path.{◌≡◌, refl}
use mathlib.Core.List.{List, [], ◌∷◌}
use mathlib.Core.Option.{Option, none, some}

module _ {ℓ} {A : Type ℓ} where
  abbrev pub or_else : Option A → Option A → Option A
  or_else none w = w
  or_else (some v) w = some v

  abbrev pub get_or : A → Option A → A
  get_or a none = a
  get_or a (some v) = v

  abbrev pub to_list : Option A → List A
  to_list none = []
  to_list (some v) = v ∷ []

  pub or_else-none : (v : Option A) → or_else v none ≡ v
  or_else-none none = refl
  or_else-none (some v) = refl
