-- ===== src/Names/VolumeName.antt =====
-- Trimming and cutting in secretVolumeName of internal/controller/resources.go.
use mathlib.Core.List.{reverse, reverse-cons, reverse-reverse}
use heliop.Base.{
  ℕ, ◌+◌, ◌≤◌, Bool, true, false, ◌||◌, List, [], ◌∷◌, ◌++◌, length, All, All-append, ◌≡◌, refl,
  sym, ◌∙◌, arith, nat_eq, Bool-cases, inl, inr,
}
use heliop.Names.{is_label_rune, trim_left, trim}

-- A rune of a DNS-1123 label.
abbrev pub is_dns_rune : ℕ → Bool
is_dns_rune r = is_label_rune r || nat_eq r b'-'

abbrev pub IsDns : ℕ → Type 0
IsDns r = is_dns_rune r ≡ true

-- The runes begin with a letter or digit, so there is one.
abbrev pub starts_label : List ℕ → Bool
starts_label [] = false
starts_label (r ∷ rs) = is_label_rune r

abbrev pub any_label : List ℕ → Bool
any_label [] = false
any_label (r ∷ rs) = is_label_rune r || any_label rs

any_label-append : (rs ss : List ℕ) → any_label (rs ++ ss) ≡ (any_label rs || any_label ss)
any_label-append [] ss = refl
any_label-append (r ∷ rs) ss = ground (arith, any_label-append rs ss)

any_label-reverse : (rs : List ℕ) → any_label (reverse rs) ≡ any_label rs
any_label-reverse [] = refl
any_label-reverse (r ∷ rs) =
    rw (reverse-cons, any_label-append, any_label-reverse rs) (ground arith)

starts_label-append :
    (rs ss : List ℕ) → any_label rs ≡ true → starts_label (rs ++ ss) ≡ starts_label rs
starts_label-append [] ss h = absurd (ground arith)
starts_label-append (r ∷ rs) ss h = refl

pub any_label_of_starts : (rs : List ℕ) → starts_label rs ≡ true → any_label rs ≡ true
any_label_of_starts [] h = h
any_label_of_starts (r ∷ rs) h = ground arith

any_label-trim_left : (rs : List ℕ) → any_label (trim_left rs) ≡ any_label rs
unfolding trim_left
any_label-trim_left [] = refl
any_label-trim_left (r ∷ rs) = ground (arith, any_label-trim_left rs)

starts_label-trim_left :
    (rs : List ℕ) → All IsDns rs → any_label rs ≡ true → starts_label (trim_left rs) ≡ true
unfolding trim_left
starts_label-trim_left [] d h = h
starts_label-trim_left (r ∷ rs) (d, ds) h = elim (Bool-cases (nat_eq r b'-')) [
  | inl e ↦ rw e (starts_label-trim_left rs ds (ground arith))
  | inr e ↦ rw e (ground arith)
]

-- Trimming the front leaves the other end.
last-trim_left :
    (rs : List ℕ)
    → any_label rs ≡ true
    → starts_label (reverse (trim_left rs)) ≡ starts_label (reverse rs)
unfolding trim_left
last-trim_left [] h = refl
last-trim_left (r ∷ rs) h = elim (Bool-cases (nat_eq r b'-')) [
  | inl e ↦
      let more : any_label rs ≡ true = ground arith in
      rw (e, reverse-cons)
        (last-trim_left rs more
          ∙ sym (starts_label-append (reverse rs) (r ∷ []) (any_label-reverse rs ∙ more)))
  | inr e ↦ rw e
]

All-trim_left : (rs : List ℕ) → All IsDns rs → All IsDns (trim_left rs)
unfolding trim_left
All-trim_left [] h = tt
All-trim_left (r ∷ rs) (d, ds) = elim (Bool-cases (nat_eq r b'-')) [
  | inl e ↦ rw e (All-trim_left rs ds)
  | inr e ↦ rw e (d, ds)
]

All-reverse : (rs : List ℕ) → All IsDns rs → All IsDns (reverse rs)
All-reverse [] h = tt
All-reverse (r ∷ rs) (d, ds) =
    rw reverse-cons (All-append IsDns (reverse rs) (r ∷ []) (All-reverse rs ds) (d, tt))

length-trim_left : (rs : List ℕ) → length (trim_left rs) ≤ length rs
unfolding trim_left
length-trim_left [] = omega arith
length-trim_left (r ∷ rs) = ground (arith, length-trim_left rs)

length-append : (rs ss : List ℕ) → length (rs ++ ss) ≡ length rs + length ss
length-append [] ss = omega arith
length-append (r ∷ rs) ss = omega (arith, length-append rs ss)

length-reverse : (rs : List ℕ) → length (reverse rs) ≡ length rs
length-reverse [] = refl
length-reverse (r ∷ rs) =
    rw reverse-cons (omega (arith, length-append (reverse rs) (r ∷ []), length-reverse rs))

-- What trimming both ends gives of runes with a letter or digit among them.
pub record IsTrimmed (rs ts : List ℕ) : Type 0 where
  pub shorter : length ts ≤ length rs
  pub dns : All IsDns ts
  pub first : starts_label ts ≡ true
  pub last : starts_label (reverse ts) ≡ true

pub trim-IsTrimmed : (rs : List ℕ) → All IsDns rs → any_label rs ≡ true → IsTrimmed rs (trim rs)
unfolding trim
trim-IsTrimmed rs d h =
    let front = trim_left rs in
    let back = reverse front in
    let front_any : any_label front ≡ true = any_label-trim_left rs ∙ h in
    let back_any : any_label back ≡ true = any_label-reverse front ∙ front_any in
    let back_dns : All IsDns back = All-reverse front (All-trim_left rs d) in
    record {
      shorter = omega (
        arith,
        length-reverse (trim_left back),
        length-trim_left back,
        length-reverse front,
        length-trim_left rs,
      );
      dns = All-reverse _ (All-trim_left back back_dns);
      first = last-trim_left back back_any ∙ rw reverse-reverse (starts_label-trim_left rs d h);
      last = rw reverse-reverse (starts_label-trim_left back back_dns back_any);
    }
