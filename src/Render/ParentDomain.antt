-- ===== src/Render/ParentDomain.antt =====
-- parentDomain of internal/controller/render.go against a description of the hostname by its dots.
use Prim.Native.Char.{Char, code}
use Prim.Native.String.{[] as empty, ◌∷◌ as ◌+>◌}
use text.Mathlib.TextLemmas.{nil-append, cons-append}
use heliop.Base.{String as Text, ◌<>◌, none, some, ◌≡◌, ◌≢◌, refl, arith}
use heliop.Render.{after_dot, parent_domain}

-- No character is a dot.
abbrev pub HasNoDot : Text → Type 0
HasNoDot empty = Unit
HasNoDot (c +> s) = (code c ≢ b'.') × HasNoDot s

abbrev pub dot : Char
dot = "."

after_dot-label : (l s : Text) → HasNoDot l → after_dot (l <> (dot +> s)) ≡ some s
unfolding after_dot
after_dot-label empty s h = rw nil-append refl
after_dot-label (c +> l) s (n, h) =
    rw (cons-append c l (dot +> s)) (ground (arith, after_dot-label l s h))

after_dot-none : (s : Text) → HasNoDot s → after_dot s ≡ none
unfolding after_dot
after_dot-none empty h = refl
after_dot-none (c +> s) (n, h) = ground (arith, after_dot-none s h)

-- The parent domain of a hostname is what follows its first label and the dot behind it. Where
-- there is no dot, or nothing behind the first one, it is the hostname itself.
pub parent_domain_lem :
    (label : Text) (c : Char) (rest : Text)
    → HasNoDot label
    → (parent_domain label ≡ label)
      × (parent_domain (label <> (dot +> empty)) ≡ label <> (dot +> empty))
      × (parent_domain (label <> (dot +> (c +> rest))) ≡ c +> rest)
unfolding parent_domain
parent_domain_lem label c rest h = (
  rw (after_dot-none label h),
  rw (after_dot-label label empty h),
  rw (after_dot-label label (c +> rest) h),
)
