-- ===== src/Secrets/Digest/Example.antt =====
-- Printers of bytes and numbers without a dollar sign, with their readers. They show that what is
-- assumed of base64 and of `%d` can hold in internal/controller/secrets.go.
use Prim.Native.String.{[] as empty, ◌∷◌ as ◌+>◌, count}
use Prim.Native.String.compare as text_compare
use text.Mathlib.TextLemmas.{length-cons}
use text.Mathlib.TextEquality.{Char-path}
use heliop.Base.{
  ℕ, zero, suc, String, Char, code, false, Option, some, ◌≡◌, refl, ap, ◌∙◌, arith, ◌==◌,
  if◌then◌else◌, nat_eq, inl, inr, Bool-cases, if_false,
}
use heliop.Secrets.{Crypto, IsSound}
use heliop.Secrets.Digest.{is_dollar, has_dollar, Codec}
use heliop.Secrets.Tests.{example, example-IsSound}

-- A dollar sign is "ab", any other character has a "b" before it.
abbrev escape : String → String
escape empty = ""
escape (x +> s) =
    let rest = escape s in if is_dollar x then "a" +> ("b" +> rest) else "b" +> (x +> rest)

abbrev unescaped : Char → Char → Char
unescaped mark x = if nat_eq (code mark) b'a' then "$" else x

abbrev unescape : String → String
unescape empty = ""
unescape (mark +> empty) = ""
unescape (mark +> (x +> s)) = unescaped mark x +> unescape s

unescape-escape : (s : String) → unescape (escape s) ≡ s
unescape-escape empty = refl
unescape-escape (x +> s) = elim (Bool-cases (is_dollar x)) [
  | inl e ↦ rw (e, unescape-escape s) (ap (λ y. y +> s) (Char-path "$" x (ground arith)))
  | inr e ↦ rw (e, unescape-escape s) refl
]

escape-plain : (s : String) → has_dollar (escape s) ≡ false
escape-plain empty = refl
escape-plain (x +> s) = elim (Bool-cases (is_dollar x)) [
  | inl e ↦ rw e (escape-plain s)
  | inr e ↦ rw (e, e) (escape-plain s)
]

abbrev marks : ℕ → String
marks zero = ""
marks (suc n) = "i" +> marks n

-- The one number that is printed by the code, and any other one.
abbrev print : ℕ → String
print n = if nat_eq n 310000 then "310000" else marks n

abbrev parse : String → Option ℕ
parse s = if s == "310000" then some 310000 else some (count s)

marks-plain : (n : ℕ) → has_dollar (marks n) ≡ false
marks-plain zero = refl
marks-plain (suc n) = marks-plain n

print-plain : (n : ℕ) → has_dollar (print n) ≡ false
print-plain n = elim (Bool-cases (nat_eq n 310000)) [
  | inl e ↦ rw e refl
  | inr e ↦ rw e (marks-plain n)
]

count-marks : (n : ℕ) → count (marks n) ≡ n
count-marks zero = refl
count-marks (suc n) = length-cons "i" (marks n) ∙ ap suc (count-marks n)

parse-marks : (n : ℕ) → parse (marks n) ≡ some n
parse-marks zero = refl
parse-marks (suc n) =
    let differs : (("i" +> marks n) == "310000") ≡ false =
      ground (arith, text_compare.cons-cons "i" "3" (marks n) "10000") in
    if_false _ _ differs ∙ ap some (count-marks (suc n))

parse-print : (n : ℕ) → parse (print n) ≡ some n
parse-print n = elim (Bool-cases (nat_eq n 310000)) [
  | inl e ↦ rw e (ap some (ground arith))
  | inr e ↦ rw e (parse-marks n)
]

abbrev pub escaping : Crypto
escaping = record example { crypt64 = escape; decimal = print }

pub escaping-IsSound : IsSound escaping
escaping-IsSound = record {
  below = example-IsSound.below;
  pem = example-IsSound.pem;
  url = example-IsSound.url;
}

pub escaping_codec : Codec escaping
escaping_codec = record {
  decode = λ s. some (unescape s);
  decoded = λ s. ap some (unescape-escape s);
  parse_decimal = parse;
  parsed = parse-print;
  plain_text = escape-plain;
  plain_number = print-plain;
}
