-- ===== src/Writes/Frames.antt =====
-- What one write, and any number of writes for one resource, leave alone.
use mathlib.Core.Path.{subst}
use heliop.Base.{
  String, false, Option, some, ◌≡◌, ◌⊎◌, ◌≢◌, refl, sym, ◌∙◌, inl, inr, String-cases, eq_iff, ◌==◌,
  arith,
}
use heliop.Cluster.{Kind, Obj, Puts}
use heliop.Writes.{Change, quiet, write, Reach, here, next}

unfoldable pub Kind-discrete : Discrete Kind
Kind-discrete = hlevel

pub String-ne : (s t : String) → (s == t) ≡ false → s ≢ t
String-ne s t h e = absurd (ground (arith, eq_iff s t))

module _ {State : Type 0} (find : (k : Kind) → String → String → State → Option (Obj k))
    (namespace : String) (names : Kind → Option String)
    (Fit : (k : Kind) → Option (Obj k) → Obj k → Type 0) where
  -- What becomes of an object.
  abbrev pub Fate : State → State → (k : Kind) → String → String → Type 0
  Fate st st' k ns n =
      (find k ns n st' ≡ find k ns n st)
      ⊎ ((new : Obj k) × (names k ≡ some n)
          × (ns ≡ namespace)
          × Fit k (find k ns n st) new
          × (find k ns n st' ≡ some new))

  written-Fate :
      (st st' : State) (k : Kind) (name : String) (new : Obj k)
      → names k ≡ some name
      → Fit k (find k namespace name st) new
      → Puts find k (record { namespace = namespace; name = name }) new st st'
      → (ns n : String) → Fate st st' k ns n
  written-Fate st st' k name new owned fit p ns n = elim (String-cases ns namespace) [
    | inl e ↦ elim (String-cases n name) [
      | inl d ↦ inr (rw (e, d) (new, owned, refl, fit, p.here))
      | inr d ↦ inl (p.elsewhere k ns n (λ (_, _, same). String-ne n name d same))
    ]
    | inr e ↦ inl (p.elsewhere k ns n (λ (_, same, _). String-ne ns namespace e same))
  ]

  -- An object is as before, or it is the one that the write is of.
  pub Change-Fate :
      {st st' : State}
      → Change find namespace names Fit st st'
      → (k : Kind) (ns n : String) → Fate st st' k ns n
  Change-Fate (quiet same) j ns n = inl (same j ns n)
  Change-Fate {st} {st'} (write k name new owned fit p) j ns n = elim (Kind-discrete k j) [
    | yes e ↦ subst (λ i. Fate st st' i ns n) e (written-Fate st st' k name new owned fit p ns n)
    | no d ↦ inl (p.elsewhere j ns n (λ (same, _, _). d (sym same)))
  ]

  Change-frame :
      {st st' : State} (k : Kind) (ns n : String)
      → Change find namespace names Fit st st'
      → ¬ ((names k ≡ some n) × (ns ≡ namespace))
      → find k ns n st' ≡ find k ns n st
  Change-frame k ns n h other = elim (Change-Fate h k ns n) [
    | inl same ↦ same
    | inr (_, owned, there, _, _) ↦ absurd (other (owned, there))
  ]

  -- Any number of writes for one resource leave each object of another namespace or of a name that the
  -- resource does not give for the object's kind.
  pub Reach-frame :
      {st st' : State} (k : Kind) (ns n : String)
      → Reach (Change find namespace names Fit) st st'
      → ¬ ((names k ≡ some n) × (ns ≡ namespace))
      → find k ns n st' ≡ find k ns n st
  Reach-frame k ns n here other = refl
  Reach-frame k ns n (next r s) other = Change-frame k ns n s other ∙ Reach-frame k ns n r other
