-- ===== src/Writes/Inputs.antt =====
-- What only users write: the reconcilers' inputs.
use mathlib.Core.Option
use mathlib.Core.Option.{none-ne-some, some-injective}
use heliop.Base.{String, Option, some, ◌≡◌, refl, ap, ◌∙◌, inl, inr}
use heliop.Api.{Authelia, AutheliaOauthClient}
use heliop.Cluster.{
  Kind, secret, config_map, service, deployment, claim, authelia, oauth_client, ingress, Obj,
}
use heliop.Secrets.{Crypto}
use heliop.Writes.{
  authelia_name, client_name, AutheliaFit, ClientFit, Step, for_authelia, for_client, Joint, by_us,
  by_others, Reach, here, next,
}
use heliop.Writes.Frames.{Fate, Change-Fate}

-- The part of an object that only its user writes: the specification of a custom resource, and the
-- whole of an Ingress.
abbrev pub SameInput : (k : Kind) → Option (Obj k) → Option (Obj k) → Type 0
SameInput authelia old new = Option.map (λ o. o.spec) new ≡ Option.map (λ o. o.spec) old
SameInput oauth_client old new = Option.map (λ o. o.spec) new ≡ Option.map (λ o. o.spec) old
SameInput ingress old new = new ≡ old
SameInput _ old new = Unit

SameInput-refl : (k : Kind) (x : Option (Obj k)) → SameInput k x x
SameInput-refl authelia x = refl
SameInput-refl oauth_client x = refl
SameInput-refl ingress x = refl
SameInput-refl secret x = tt
SameInput-refl config_map x = tt
SameInput-refl service x = tt
SameInput-refl deployment x = tt
SameInput-refl claim x = tt

SameInput-trans :
    (k : Kind) (x y z : Option (Obj k)) → SameInput k x y → SameInput k y z → SameInput k x z
SameInput-trans authelia x y z e d = d ∙ e
SameInput-trans oauth_client x y z e d = d ∙ e
SameInput-trans ingress x y z e d = d ∙ e
SameInput-trans secret x y z e d = tt
SameInput-trans config_map x y z e d = tt
SameInput-trans service x y z e d = tt
SameInput-trans deployment x y z e d = tt
SameInput-trans claim x y z e d = tt

module _ {State : Type 0} (find : (k : Kind) → String → String → State → Option (Obj k))
    (c : Crypto) where
  Authelia-input :
      {st st' : State} (a : Authelia) (k : Kind) (ns n : String)
      → Fate find a.namespace (authelia_name a) (AutheliaFit a) st st' k ns n
      → SameInput k (find k ns n st) (find k ns n st')
  Authelia-input a authelia ns n (inl same) = rw same refl
  Authelia-input a authelia ns n (inr (new, _, _, (o, was, becomes), found)) =
      rw (found, was) (ap (λ x. some x.spec) becomes)
  Authelia-input a oauth_client ns n (inl same) = rw same refl
  Authelia-input a oauth_client ns n (inr (_, _, _, never, _)) = absurd never
  Authelia-input a ingress ns n (inl same) = same
  Authelia-input a ingress ns n (inr (_, _, _, never, _)) = absurd never
  Authelia-input a secret ns n h = tt
  Authelia-input a config_map ns n h = tt
  Authelia-input a service ns n h = tt
  Authelia-input a deployment ns n h = tt
  Authelia-input a claim ns n h = tt

  Client-input :
      {st st' : State} (client : AutheliaOauthClient) (k : Kind) (ns n : String)
      → Fate find client.namespace (client_name client) (ClientFit c client) st st' k ns n
      → SameInput k (find k ns n st) (find k ns n st')
  Client-input client oauth_client ns n (inl same) = rw same refl
  Client-input client oauth_client ns n (inr (new, _, _, (o, was, becomes), found)) =
      rw (found, was) (ap (λ x. some x.spec) becomes)
  Client-input client authelia ns n (inl same) = rw same refl
  Client-input client authelia ns n (inr (_, _, _, never, _)) = absurd never
  Client-input client ingress ns n (inl same) = same
  Client-input client ingress ns n (inr (_, _, _, never, _)) = absurd never
  Client-input client secret ns n h = tt
  Client-input client config_map ns n h = tt
  Client-input client service ns n h = tt
  Client-input client deployment ns n h = tt
  Client-input client claim ns n h = tt

  Step-input :
      {st st' : State} (k : Kind) (ns n : String)
      → Step find c st st'
      → SameInput k (find k ns n st) (find k ns n st')
  Step-input k ns n (for_authelia a h) =
      Authelia-input a k ns n
        (Change-Fate find a.namespace (authelia_name a) (AutheliaFit a) h k ns n)
  Step-input k ns n (for_client client h) =
      Client-input client k ns n
        (Change-Fate find client.namespace (client_name client) (ClientFit c client) h k ns n)

  -- The reconcilers never write, create or delete their inputs: where the others keep it, the
  -- specification of an Authelia or of a client, or an Ingress, is the same after any writes.
  pub Reach-input :
      {Rely : State → State → Type 0} {st st' : State} (k : Kind) (ns n : String)
      → ((u v : State) → Rely u v → SameInput k (find k ns n u) (find k ns n v))
      → Reach (Joint (Step find c) Rely) st st'
      → SameInput k (find k ns n st) (find k ns n st')
  Reach-input k ns n others here = SameInput-refl k _
  Reach-input k ns n others (next {u} {v} r (by_us s)) =
      SameInput-trans k _ (find k ns n u) _ (Reach-input k ns n others r) (Step-input k ns n s)
  Reach-input k ns n others (next {u} {v} r (by_others s)) =
      SameInput-trans k _ (find k ns n u) _ (Reach-input k ns n others r) (others u v s)
