-- ===== src/Controllers/Runs.antt =====
-- Any number of runs of both controllers, in any order: the requests of the work queues of both, the
-- repeated ones too.
use mathlib.Core.Path.{subst}
use mathlib.Core.Option.{none-ne-some}
use heliop.Base.{
  String, Option, none, some, List, [], ◌∷◌, ◌≡◌, ◌⊎◌, refl, sym, ◌∙◌, inl, inr, contains, false,
  true, ◌==◌,
}
use heliop.Cluster.{
  Kind, secret, config_map, service, deployment, claim, authelia, oauth_client, ingress, Obj,
  ClusterClient,
}
use heliop.Cluster.Shared.{IsShared}
use heliop.Kubernetes.{Secret, PersistentVolumeClaim}
use heliop.OauthClients.{Request}
use heliop.Secrets.{Crypto, IsSound, map_of, bytes_at}
use heliop.Secrets.Once.{core_keys}
use heliop.Controllers.{Libraries, World, reconcile, reconcile_client}
use heliop.Controllers.Refinement.{
  Outcome, nothing, for_object, reconcile-Outcome, reconcile_client-Outcome,
}
use heliop.Writes.{
  AutheliaChange, ClientChange, Step, for_authelia, for_client, Joint, by_us, by_others, Joint-map,
  Reach, here, Reach-trans, Reach-map,
}
use heliop.Writes.Invariants.{Reach-claim, Reach-core, KeepsSecret}
use heliop.Writes.Inputs.{Reach-input, SameInput}

pub data Call : Type 0 where
  for_authelia_controller for_client_controller : Request → Call

module _ (c : Crypto) (cc : ClusterClient c.Source) (lib : Libraries) where
  -- One run. Its result decides only if the request comes again.
  unfoldable pub run_one : Call → World c cc → World c cc
  unfolding reconcile reconcile_client
  run_one (for_authelia_controller req) w = (reconcile c cc lib req w).1
  run_one (for_client_controller req) w = (reconcile_client c cc req w).1

  unfoldable pub run : List Call → World c cc → World c cc
  unfolding run_one
  run [] w = w
  run (call ∷ calls) w = run calls (run_one call w)

  module _ {Rely : cc.State → cc.State → Type 0} (laws : IsShared cc Rely) (sound : IsSound c) where
    -- A step of the cluster: a write for some resource, or what someone else does.
    abbrev pub Moved : cc.State → cc.State → Type 0
    Moved = Joint (Step laws.find c) Rely

    Outcome-Reach :
        (k : Kind) (req : Request) (R : Obj k → cc.State → cc.State → Type 0) (u v : cc.State)
        → ((x : Obj k) (st st' : cc.State) → R x st st' → Step laws.find c st st')
        → Outcome c cc laws sound k req (λ x. Joint (R x) Rely) u v
        → Reach Moved u v
    Outcome-Reach k req R u v step (nothing same) = subst (Reach Moved u) (sym same) here
    Outcome-Reach k req R u v step (for_object x got key h) =
        Reach-map (λ st st' s. Joint-map (step x) st st' s) h

    run_one-Reach : (call : Call) (w : World c cc) → Reach Moved w.0 (run_one call w).0
    unfolding run_one
    run_one-Reach (for_authelia_controller req) w =
        Outcome-Reach authelia req (AutheliaChange laws.find) _ _ (λ a st st' h. for_authelia a h)
          (reconcile-Outcome c cc laws sound lib req w)
    run_one-Reach (for_client_controller req) w =
        Outcome-Reach oauth_client req (ClientChange laws.find c) _ _ (λ x st st' h. for_client x h)
          (reconcile_client-Outcome c cc laws sound req w)

    pub run-Reach : (calls : List Call) (w : World c cc) → Reach Moved w.0 (run calls w).0
    unfolding run
    run-Reach [] w = here
    run-Reach (call ∷ calls) w =
        Reach-trans (run_one-Reach call w) (run-Reach calls (run_one call w))

    -- What the others do: the writes of another run that goes on meanwhile, or steps of a given kind.
    abbrev pub RunsOr : (cc.State → cc.State → Type 0) → Type 0
    RunsOr Q = (u v : cc.State) → Rely u v → Step laws.find c u v ⊎ Q u v

    pub absorbed :
        (Q : cc.State → cc.State → Type 0) (u v : cc.State)
        → RunsOr Q
        → Reach Moved u v
        → Reach (Joint (Step laws.find c) Q) u v
    absorbed Q u v others = Reach-map (λ s t h. elim h [
      | by_us ours ↦ by_us ours
      | by_others theirs ↦ elim (others s t theirs) [ inl run ↦ by_us run | inr q ↦ by_others q ]
    ])

    -- After any runs of both controllers, in any order, whatever they ended in and whatever others did
    -- meanwhile, as long as each step of the others is a write that the specification allows to the
    -- controllers (further runs at the same time) or one that keeps the core values (session, storage,
    -- HMAC, private key) of a Secret: the Secret that was there is there, and each core value that it had
    -- is the same. None is ever rotated.
    pub run_keeps_core :
        (calls : List Call) (w : World c cc) (namespace name : String) (x : Secret) (k : String)
        → RunsOr (KeepsSecret laws.find c namespace name)
        → laws.find secret namespace name w.0 ≡ some x
        → contains core_keys k ≡ true
        → (bytes_at k (map_of x.contents) == "") ≡ false
        → (y : Secret) × (laws.find secret namespace name (run calls w).0 ≡ some y)
          × (bytes_at k (map_of y.contents) ≡ bytes_at k (map_of x.contents))
    run_keeps_core calls w namespace name x k others found core given =
        let moved =
          absorbed (KeepsSecret laws.find c namespace name) _ _ others (run-Reach calls w) in
        let (y, there, kept) =
          Reach-core laws.find c namespace name x (λ u v keeps. keeps) moved found in
        (y, there, kept k core given)

    -- A claim that is there is the same; of a custom resource the specification is; an Ingress is the same.
    abbrev pub Untouched : (k : Kind) → Option (Obj k) → Option (Obj k) → Type 0
    Untouched claim old new = (old ≡ none) ⊎ (new ≡ old)
    Untouched k old new = SameInput k old new

    abbrev pub Leaves : (k : Kind) → String → String → cc.State → cc.State → Type 0
    Leaves k namespace name u v =
        Untouched k (laws.find k namespace name u) (laws.find k namespace name v)

    claim-Untouched :
        (u v : cc.State) (namespace name : String) (old : Option PersistentVolumeClaim)
        → Reach (Joint (Step laws.find c) (Leaves claim namespace name)) u v
        → laws.find claim namespace name u ≡ old
        → Untouched claim old (laws.find claim namespace name v)
    claim-Untouched u v namespace name none h e = inl refl
    claim-Untouched u v namespace name (some x) h e = inr (
        Reach-claim laws.find c namespace name x
          (λ s t leaves there. elim leaves [
            | inl gone ↦ absurd (none-ne-some x (sym gone ∙ there))
            | inr same ↦ same ∙ there
          ])
          h e)

    Reach-Untouched :
        (k : Kind) (ns n : String) (u v : cc.State)
        → Reach (Joint (Step laws.find c) (Leaves k ns n)) u v
        → Leaves k ns n u v
    Reach-Untouched claim ns n u v h = claim-Untouched u v ns n _ h refl
    Reach-Untouched authelia ns n u v h = Reach-input laws.find c authelia ns n (λ s t same. same) h
    Reach-Untouched oauth_client ns n u v h =
        Reach-input laws.find c oauth_client ns n (λ s t same. same) h
    Reach-Untouched ingress ns n u v h = Reach-input laws.find c ingress ns n (λ s t same. same) h
    Reach-Untouched secret ns n u v h = tt
    Reach-Untouched config_map ns n u v h = tt
    Reach-Untouched service ns n u v h = tt
    Reach-Untouched deployment ns n u v h = tt

    -- After any runs of both controllers, in any order, whatever they ended in and whatever others did
    -- meanwhile, as long as each step of the others is a write that the specification allows to the
    -- controllers (further runs at the same time) or one that leaves the object alone in this sense: a
    -- data claim that was there is there unchanged; the specification of an Authelia or of a client and
    -- an Ingress are as they were.
    pub run-Untouched :
        (calls : List Call) (w : World c cc) (k : Kind) (namespace name : String)
        → RunsOr (Leaves k namespace name)
        → Untouched k (laws.find k namespace name w.0) (laws.find k namespace name (run calls w).0)
    run-Untouched calls w k namespace name others =
        Reach-Untouched k namespace name _ _
          (absorbed (Leaves k namespace name) _ _ others (run-Reach calls w))
