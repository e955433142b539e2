-- ===== src/Render/Trees.antt =====
-- childMap of internal/controller/render.go: reads and writes of nested maps.
use heliop.Base.{String, some, ◌≡◌, refl, ◌==◌, ap, eq_refl, String-cases, inl, inr, if◌then◌else◌}
use heliop.Base.Dict.{lookup, lookup-insert}
use heliop.Json.{Object, object, props-fields}
use heliop.Render.{child_map, update_child, as_map}

-- A key of the parent after a write to its child: the child's own key holds the written map.
pub lookup-update_child :
    (k j : String) (f : Object → Object) (m : Object)
    → lookup j (update_child k f m)
      ≡ (if k == j then some (object (f (child_map k m))) else lookup j m)
unfolding update_child
lookup-update_child k j f m = lookup-insert k j _ m

-- The child reads back as it was written; a child under another key is as before.
pub child_map-update_child :
    (k j : String) (f : Object → Object) (m : Object)
    → child_map j (update_child k f m) ≡ (if k == j then f (child_map k m) else child_map j m)
unfolding child_map
child_map-update_child k j f m = elim (String-cases k j) [
  | inl e ↦ rw (e, lookup-update_child, eq_refl) (props-fields (f (child_map j m)))
  | inr n ↦ rw (lookup-update_child, n) refl
]

-- A child is determined by what stands under its key.
pub child_map-eq :
    (k : String) (m n : Object) → lookup k m ≡ lookup k n → child_map k m ≡ child_map k n
unfolding child_map
child_map-eq k m n h = ap as_map h

-- What is written under the key is the child.
pub update_child_value :
    (k : String) (f : Object → Object) (m : Object)
    → lookup k (update_child k f m) ≡ some (object (child_map k (update_child k f m)))
update_child_value k f m = simp (lookup-update_child, child_map-update_child, eq_refl)
