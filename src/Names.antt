-- ===== src/Names.antt =====
-- internal/controller/resources.go: the names, labels and paths of what the operator generates.
pub mod DnsLabel
mod Tests
pub mod VolumeName
use Prim.Native.Char.{Char, char, code, IsScalar, nul}
use Prim.Native.Nat.{compare, Ordering}
use Prim.Native.String.{[] as empty, ◌∷◌ as ◌+>◌}
use mathlib.Core.List.{reverse}
use mathlib.Core.Logic.{dite}
use native.Mathlib.Decide.{dec_lt}
use heliop.Base.{
  ℕ, zero, suc, ◌+◌, ◌<◌, String, ◌<>◌, Bool, true, false, ◌&&◌, ◌||◌, List, [], ◌∷◌, map, length,
  ◌≡◌, arith, leb, ltb, nat_eq, if◌then◌else◌,
}
use heliop.Base.Dict.{Dict}
use heliop.Base.Strings.{has_suffix}
use heliop.Api.{SecretKeyRef, Authelia}

abbrev pub config_map_name : Authelia → String
config_map_name a = a.name <> "-config"

abbrev pub data_pvc_name : Authelia → String
data_pvc_name a = a.name <> "-data"

abbrev pub file_backend_mount_path : String
file_backend_mount_path = "/authelia/file-backend"

abbrev pub secrets_mount_base : String
secrets_mount_base = "/authelia/secrets"

abbrev pub file_users_path : SecretKeyRef → String
file_users_path ref = file_backend_mount_path <> "/" <> ref.key

unfoldable pub is_file_secret : String → Bool
unfolding has_suffix
is_file_secret env_name = has_suffix env_name "_FILE"

-- The runes of a string.
abbrev pub runes : String → List ℕ
runes empty = []
runes (c +> s) = code c ∷ runes s

-- A letter or digit that a DNS-1123 label may hold.
abbrev pub is_label_rune : ℕ → Bool
is_label_rune r = (leb b'a' r && leb r b'z') || (leb b'0' r && leb r b'9')

-- `strings.ToLower` on a rune, as far as `secretVolumeName` tells runes apart: outside of ASCII only
-- U+0130 and U+212A have a lower case in ASCII, and any other rune becomes a dash.
lower : ℕ → ℕ
lower r =
    if leb b'A' r && leb r b'Z'
    then r + 32
    else if nat_eq r 0x130
    then b'i'
    else if nat_eq r 0x212a
    then b'k'
    else r

-- The loop of `secretVolumeName`.
volume_rune : ℕ → ℕ
unfolding lower
volume_rune r = if is_label_rune (lower r) then lower r else b'-'

-- `strings.Trim(s, "-")`
trim_left : List ℕ → List ℕ
trim_left [] = []
trim_left (r ∷ rs) = let rest = trim_left rs in if nat_eq r b'-' then rest else r ∷ rs

pub trim : List ℕ → List ℕ
unfolding trim_left
trim rs = reverse (trim_left (reverse (trim_left rs)))

take : ℕ → List ℕ → List ℕ
take zero rs = []
take (suc n) [] = []
take (suc n) (r ∷ rs) = r ∷ take n rs

-- A name of more than 63 bytes is cut; its runes are ASCII, a byte each.
cut : List ℕ → List ℕ
unfolding trim take
cut rs = if ltb 63 (length rs) then trim (take 63 rs) else rs

unfoldable pub volume_runes : String → List ℕ
unfolding trim cut volume_rune
volume_runes env_name = cut (trim (map volume_rune (runes env_name)))

pub IsScalar-of_lt : (n : ℕ) → n < 128 → IsScalar n
IsScalar-of_lt n h = let below : compare n 55296 ≡ Ordering.lt = ground arith in rw below tt

-- `string(b)` for ASCII runes.
rune_char : ℕ → Char
rune_char r = dite (dec_lt r 128) (λ h. char r (IsScalar-of_lt r h)) (λ _. nul)

pub to_text : List ℕ → String
unfolding rune_char
to_text [] = empty
to_text (r ∷ rs) = rune_char r +> to_text rs

unfoldable pub secret_volume_name : String → String
unfolding volume_runes to_text
secret_volume_name env_name = to_text (volume_runes env_name)

abbrev pub secret_mount_path : String → String
secret_mount_path env_name = secrets_mount_base <> "/" <> secret_volume_name env_name

abbrev pub labels_for : Authelia → Dict String
labels_for a =
    ("app.kubernetes.io/name", "authelia")
    ∷ ("app.kubernetes.io/instance", a.name)
    ∷ ("app.kubernetes.io/managed-by", "heliop")
    ∷ []

abbrev pub selector_for : Authelia → Dict String
selector_for a =
    ("app.kubernetes.io/name", "authelia") ∷ ("app.kubernetes.io/instance", a.name) ∷ []
