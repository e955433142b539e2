-- ===== src/Base/Strings.antt =====
-- Go's order, prefixes and suffixes of strings. The order of the code points is that of the bytes.
use Prim.Native.Char.{code}
use Prim.Native.String.{String, [], ◌∷◌, compare as compare_text}
use Prim.Native.String.compare as text_compare
use mathlib.Core.Path.{◌≡◌, refl}
use mathlib.Core.Bool.{Bool, true, false, ◌&&◌, ◌||◌}
use native.Mathlib.Omega.{arith}
use text.Mathlib.Text
use text.Mathlib.TextEquality.{path_by_compare}
use text.Mathlib.TextPositions.{compare_refl}
use heliop.Base.Tests.{◌==◌, nat_eq}

-- `s < t`
abbrev pub lt_str : String → String → Bool
lt_str s t = Text.is_lt (compare_text s t)

-- `strings.HasPrefix(s, t)`
unfoldable pub has_prefix : String → String → Bool
has_prefix s [] = true
has_prefix [] (d ∷ t) = false
has_prefix (c ∷ s) (d ∷ t) = nat_eq (code c) (code d) && has_prefix s t

-- `strings.HasSuffix(s, t)`
unfoldable pub has_suffix : String → String → Bool
has_suffix [] t = [] == t
has_suffix (c ∷ s) t = (c ∷ s) == t || has_suffix s t

pub lt_str_irrefl : (s : String) → lt_str s s ≡ false
lt_str_irrefl s = ground (arith, compare_refl s)

pub lt_str_total : (s t : String) → lt_str s t ≡ false → lt_str t s ≡ false → s ≡ t
lt_str_total [] [] h k = refl
lt_str_total [] (d ∷ t) h k = ground (arith, text_compare.nil-cons d t)
lt_str_total (c ∷ s) [] h k = ground (arith, text_compare.nil-cons c s)
lt_str_total (c ∷ s) (d ∷ t) h k = ground (
  arith,
  text_compare.cons-cons c d s t,
  text_compare.cons-cons d c t s,
  lt_str_total s t,
  path_by_compare (c ∷ s) (d ∷ t),
  compare_refl s,
)

pub lt_str_trans : (s t u : String) → lt_str s t ≡ true → lt_str t u ≡ true → lt_str s u ≡ true
lt_str_trans [] [] u h k = ground (arith, compare_refl [])
lt_str_trans [] (d ∷ t) [] h k = ground (arith, text_compare.cons-nil d t)
lt_str_trans [] (d ∷ t) (e ∷ u) h k = ground (arith, text_compare.nil-cons e u)
lt_str_trans (c ∷ s) [] u h k = ground (arith, text_compare.cons-nil c s)
lt_str_trans (c ∷ s) (d ∷ t) [] h k = ground (arith, text_compare.cons-nil d t)
lt_str_trans (c ∷ s) (d ∷ t) (e ∷ u) h k = ground (
  arith,
  text_compare.cons-cons c d s t,
  text_compare.cons-cons d e t u,
  text_compare.cons-cons c e s u,
  lt_str_trans s t u,
)
