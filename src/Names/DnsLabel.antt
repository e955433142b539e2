-- ===== src/Names/DnsLabel.antt =====
-- secretVolumeName of internal/controller/resources.go gives DNS-1123 labels.
use Prim.Native.String.{String, [] as empty, ◌∷◌ as ◌+>◌}
use mathlib.Core.List.{reverse}
use mathlib.Core.Path.{subst}
use mathlib.Core.Logic.{dif_pos}
use native.Mathlib.Bridge.{le_prop}
use native.Mathlib.Decide.{dec_lt}
use heliop.Base.{
  ℕ, zero, suc, ◌≤◌, ◌<◌, true, List, [], ◌∷◌, map, length, All, ◌≡◌, refl, sym, arith, ltb,
  Bool-cases, String-cases, inl, inr,
}
use heliop.Base.Strings.{has_suffix}
use heliop.Names.{
  runes, is_label_rune, lower, volume_rune, take, cut, volume_runes, rune_char, to_text,
  secret_volume_name, is_file_secret,
}
use heliop.Names.VolumeName.{
  is_dns_rune, IsDns, starts_label, any_label, any_label_of_starts, IsTrimmed, trim-IsTrimmed,
}

-- A DNS-1123 label: 1 to 63 lower-case letters, digits and dashes, with no dash at either end.
pub record IsDnsLabel (rs : List ℕ) : Type 0 where
  pub bounded : length rs ≤ 63
  pub dns : All (λ r. is_dns_rune r ≡ true) rs
  pub first : starts_label rs ≡ true
  pub last : starts_label (reverse rs) ≡ true

take-IsDns : (n : ℕ) (rs : List ℕ) → All IsDns rs → All IsDns (take n rs)
unfolding take
take-IsDns zero rs h = tt
take-IsDns (suc n) [] h = tt
take-IsDns (suc n) (r ∷ rs) (d, ds) = (d, take-IsDns n rs ds)

length-take : (n : ℕ) (rs : List ℕ) → length (take n rs) ≤ n
unfolding take
length-take zero rs = omega arith
length-take (suc n) [] = omega arith
length-take (suc n) (r ∷ rs) = omega (arith, length-take n rs)

take-starts : (n : ℕ) (rs : List ℕ) → starts_label rs ≡ true → starts_label (take (suc n) rs) ≡ true
unfolding take
take-starts n [] h = h
take-starts n (r ∷ rs) h = h

cut-IsDnsLabel : (rs ts : List ℕ) → IsTrimmed rs ts → IsDnsLabel (cut ts)
unfolding cut
cut-IsDnsLabel rs ts t = elim (Bool-cases (ltb 63 (length ts))) [
  | inl e ↦
      let c =
        trim-IsTrimmed (take 63 ts) (take-IsDns 63 ts t.dns)
          (any_label_of_starts (take 63 ts) (take-starts 62 ts t.first)) in
      rw e (record {
        bounded = omega (arith, c.shorter, length-take 63 ts);
        dns = c.dns;
        first = c.first;
        last = c.last;
      })
  | inr e ↦ rw e (record { bounded = ground arith; dns = t.dns; first = t.first; last = t.last })
]

volume_rune-dns : (r : ℕ) → is_dns_rune (volume_rune r) ≡ true
unfolding volume_rune
volume_rune-dns r = elim (Bool-cases (is_label_rune (lower r))) [ inl e ↦ rw (e, e) | inr e ↦ rw e ]

map-IsDns : (rs : List ℕ) → All IsDns (map volume_rune rs)
map-IsDns [] = tt
map-IsDns (r ∷ rs) = (volume_rune-dns r, map-IsDns rs)

has_suffix-any_label :
    (s : String) → has_suffix s "_FILE" ≡ true → any_label (map volume_rune (runes s)) ≡ true
unfolding has_suffix volume_rune
has_suffix-any_label empty h = absurd (ground arith)
has_suffix-any_label (c +> s) h = elim (String-cases (c +> s) "_FILE") [
  | inl e ↦ subst (λ t. any_label (map volume_rune (runes t)) ≡ true) (sym e) refl
  | inr n ↦ let ih = has_suffix-any_label s (ground arith) in ground arith
]

volume_runes-IsDnsLabel :
    (env_name : String) → has_suffix env_name "_FILE" ≡ true → IsDnsLabel (volume_runes env_name)
unfolding volume_runes
volume_runes-IsDnsLabel env_name h =
    cut-IsDnsLabel _ _
      (trim-IsTrimmed _ (map-IsDns (runes env_name)) (has_suffix-any_label env_name h))

runes-to_text : (rs : List ℕ) → All IsDns rs → runes (to_text rs) ≡ rs
unfolding to_text rune_char
runes-to_text [] h = refl
runes-to_text (r ∷ rs) (d, ds) =
    let ascii : r < 128 = ground arith in
    rw (dif_pos (dec_lt r 128) le_prop ascii _ _, runes-to_text rs ds)

-- The volume name of a `_FILE` variable is a DNS-1123 label: it is not empty, has at most 63 runes,
-- holds only lower-case letters, digits and dashes, and neither begins nor ends with a dash.
pub secret_volume_name-IsDnsLabel :
    (env_name : String)
    → is_file_secret env_name ≡ true
    → IsDnsLabel (runes (secret_volume_name env_name))
unfolding secret_volume_name is_file_secret
secret_volume_name-IsDnsLabel env_name h =
    let label = volume_runes-IsDnsLabel env_name h in rw (runes-to_text _ label.dns) label
