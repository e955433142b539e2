-- ===== src/Writes/Invariants.antt =====
-- What any number of writes for any resources, in any order, keep.
use mathlib.Core.Bool.{false≢true}
use mathlib.Core.Option.{none-ne-some}
use heliop.Base.{
  String, true, false, Option, some, ◌≡◌, refl, sym, ap, ◌∙◌, inl, inr, String-cases, ◌==◌, arith,
  contains,
}
use heliop.Base.Dict.{Dict}
use heliop.Kubernetes.{Secret, PersistentVolumeClaim}
use heliop.Cluster.{Kind, secret, claim, Obj}
use heliop.OauthClients.{client_id_key, client_secret_key, digest_key}
use heliop.OauthClients.Data.{client_keys}
use heliop.Secrets.{Crypto, bytes_at, map_of}
use heliop.Secrets.Core.{bytes_at-eq}
use heliop.Secrets.Once.{core_keys}
use heliop.Writes.{
  authelia_name, client_name, AutheliaFit, ClientFit, Step, for_authelia, for_client, Joint, by_us,
  by_others, Reach, here, next,
}
use heliop.Writes.Frames.{Change-Fate}

not_core : (i k : String) → i ≡ k → contains core_keys i ≡ false → contains core_keys k ≡ true → ⊥
not_core i k e no_core core = false≢true (sym no_core ∙ ap (contains core_keys) e ∙ core)

core_is_not_client : (k : String) → contains core_keys k ≡ true → contains client_keys k ≡ false
core_is_not_client k h = elim (String-cases client_id_key k) [
  | inl e ↦ absurd (not_core client_id_key k e refl h)
  | inr d1 ↦ elim (String-cases client_secret_key k) [
    | inl e ↦ absurd (not_core client_secret_key k e refl h)
    | inr d2 ↦ elim (String-cases digest_key k) [
      | inl e ↦ absurd (not_core digest_key k e refl h)
      | inr d3 ↦ ground arith
    ]
  ]
]

-- The values of the core keys that are there stay.
abbrev pub KeepsCore : Dict String → Dict String → Type 0
KeepsCore m n =
    (k : String)
    → contains core_keys k ≡ true
    → (bytes_at k m == "") ≡ false
    → bytes_at k n ≡ bytes_at k m

module _ {State : Type 0} (find : (k : Kind) → String → String → State → Option (Obj k))
    (c : Crypto) where
  Step-claim :
      {st st' : State} (ns n : String) (x : PersistentVolumeClaim)
      → Step find c st st'
      → find claim ns n st ≡ some x
      → find claim ns n st' ≡ some x
  Step-claim ns n x (for_authelia a h) e =
      elim (Change-Fate find a.namespace (authelia_name a) (AutheliaFit a) h claim ns n) [
        | inl same ↦ same ∙ e
        | inr (_, _, _, (absent, _), _) ↦ absurd (none-ne-some x (sym absent ∙ e))
      ]
  Step-claim ns n x (for_client client h) e =
      elim (Change-Fate find client.namespace (client_name client) (ClientFit c client) h claim ns
        n) [ inl same ↦ same ∙ e | inr (_, _, _, never, _) ↦ absurd never ]

  -- A data claim that the others leave alone is never overwritten or deleted, whatever the reconcilers
  -- write and for whichever resources.
  pub Reach-claim :
      {Rely : State → State → Type 0} {st st' : State} (ns n : String) (x : PersistentVolumeClaim)
      → ((u v : State) → Rely u v → find claim ns n u ≡ some x → find claim ns n v ≡ some x)
      → Reach (Joint (Step find c) Rely) st st'
      → find claim ns n st ≡ some x
      → find claim ns n st' ≡ some x
  Reach-claim ns n x others here e = e
  Reach-claim ns n x others (next r (by_us s)) e =
      Step-claim ns n x s (Reach-claim ns n x others r e)
  Reach-claim ns n x others (next {u} {v} r (by_others s)) e =
      others u v s (Reach-claim ns n x others r e)

  -- A Secret is there, with the core values of `m`.
  abbrev pub HoldsCore : String → String → Dict String → State → Type 0
  HoldsCore ns n m st =
      (y : Secret) × (find secret ns n st ≡ some y) × KeepsCore m (map_of y.contents)

  Step-core :
      {st st' : State} (ns n : String) (x : Secret)
      → Step find c st st'
      → find secret ns n st ≡ some x
      → HoldsCore ns n (map_of x.contents) st'
  Step-core ns n x (for_authelia a h) e =
      elim (Change-Fate find a.namespace (authelia_name a) (AutheliaFit a) h secret ns n) [
        | inl same ↦ (x, same ∙ e, λ k core there. refl)
        | inr (y, _, _, (_, completed, _), found) ↦
            (y, found, λ k core there. (rw e at completed).keeps k there)
      ]
  Step-core ns n x (for_client client h) e =
      elim (Change-Fate find client.namespace (client_name client) (ClientFit c client) h secret ns
        n) [
          | inl same ↦ (x, same ∙ e, λ k core there. refl)
          | inr (y, _, _, (_, _, others, _), found) ↦ (
            y,
            found,
            λ k core there.
                bytes_at-eq k (map_of x.contents) (map_of y.contents)
                  ((rw e at others) k (core_is_not_client k core)),
          )
        ]

  -- A step keeps the core values of a Secret.
  abbrev pub KeepsSecret : String → String → State → State → Type 0
  KeepsSecret ns n st st' =
      (x : Secret) → find secret ns n st ≡ some x → HoldsCore ns n (map_of x.contents) st'

  Joint-core :
      {Rely : State → State → Type 0} (ns n : String)
      → ((u v : State) → Rely u v → KeepsSecret ns n u v)
      → (u v : State) → Joint (Step find c) Rely u v
      → KeepsSecret ns n u v
  Joint-core ns n others u v (by_us s) x e = Step-core ns n x s e
  Joint-core ns n others u v (by_others s) x e = others u v s x e

  -- No core value of a Secret that the others keep is ever rotated: a session, storage, HMAC or private
  -- key that is there is the same after any writes of both reconcilers.
  pub Reach-core :
      {Rely : State → State → Type 0} {st st' : State} (ns n : String) (x : Secret)
      → ((u v : State) → Rely u v → KeepsSecret ns n u v)
      → Reach (Joint (Step find c) Rely) st st'
      → find secret ns n st ≡ some x
      → HoldsCore ns n (map_of x.contents) st'
  Reach-core ns n x others here e = (x, e, λ k core there. refl)
  Reach-core ns n x others (next {u} {v} r s) e =
      let (y, found, kept) = Reach-core ns n x others r e in
      let (z, there, again) = Joint-core ns n others u v s y found in
      (z, there, λ k core given. again k core (rw (kept k core given) given) ∙ kept k core given)
