-- ===== src/Json.antt =====
-- The values that `encoding/json` decodes into an `any`, and Go's `map[string]any`.
-- A float64 is opaque: the program only passes numbers through. It is kept as its literal.
use heliop.Base.{String, ◌≡◌, refl, ap, Bool, Option, none, some, List, [], ◌∷◌}
use heliop.Base.Dict.{Dict}

mutual
  pub data Value : Type 0 where
    null : Value
    bool : Bool → Value
    number : String → Value
    str : String → Value
    obj : Fields → Value
    arr : Items → Value

  pub data Fields : Type 0 where
    field : (key : String) → (value : Value) → (rest : Fields) → Fields
    end : Fields

  pub data Items : Type 0 where
    cons : (first : Value) → (rest : Items) → Items
    nil : Items

-- `map[string]any`
abbrev pub Object : Type 0
Object = Dict Value

abbrev pub elems : Items → List Value
elems nil = []
elems (cons v vs) = v ∷ elems vs

abbrev pub items : List Value → Items
items [] = nil
items (v ∷ vs) = cons v (items vs)

abbrev pub props : Fields → Object
props end = []
props (field k v fs) = (k, v) ∷ props fs

abbrev pub fields : Object → Fields
fields [] = end
fields ((k, v) ∷ m) = field k v (fields m)

pub props-fields : (m : Object) → props (fields m) ≡ m
props-fields [] = refl
props-fields (e ∷ m) = ap (◌∷◌ e) (props-fields m)

pub elems-items : (vs : List Value) → elems (items vs) ≡ vs
elems-items [] = refl
elems-items (v ∷ vs) = ap (◌∷◌ v) (elems-items vs)

-- A map and a slice as values.
abbrev pub object : Object → Value
object m = obj (fields m)

abbrev pub array : List Value → Value
array vs = arr (items vs)

-- `v.([]any)`, or nil.
abbrev pub list_of : Option Value → List Value
list_of (some (arr vs)) = elems vs
list_of _ = []

-- `toIfaceSlice`
abbrev pub to_iface_slice : List String → List Value
to_iface_slice [] = []
to_iface_slice (s ∷ ss) = str s ∷ to_iface_slice ss

-- `json.Unmarshal` of a parsed text into a `map[string]any`: an error (`none`) unless the text is an
-- object or `null`, which makes the map nil (`some none`).
abbrev pub to_map : Option Value → Option (Option Object)
to_map none = none
to_map (some (obj fs)) = some (some (props fs))
to_map (some null) = some none
to_map (some _) = none
