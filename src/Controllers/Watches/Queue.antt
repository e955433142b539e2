-- ===== src/Controllers/Watches/Queue.antt =====
-- The work queue of the Authelia controller, between the events of internal/controller's watches and
-- the runs of Reconcile: which changes lead to a run, and which are missed.
use mathlib.Core.Path.{subst}
use mathlib.Core.List.{mem-append_left, mem-append_right}
use heliop.Base.{Bool, true, false, List, ◌++◌, Mem, ◌≡◌, ◌≢◌, ◌⊎◌, inl, inr, refl, sym, ◌∙◌}
use heliop.Base.Options.{to_list}
use heliop.Base.Result.{ok}
use heliop.Api.{Authelia, AutheliaOauthClient}
use heliop.Cluster.{authelia, oauth_client, ingress, ClusterClient}
use heliop.Ingress.{Ingress}
use heliop.OauthClients.{Request}
use heliop.Secrets.{Crypto}
use heliop.Controllers.{Libraries, ReconcileResult, World, request_for, reconcile}
use heliop.Controllers.Watches.{Event, authelia_setup, Builder, IsBuilder}
use heliop.Controllers.Watches.Unneeded.{
  SameClients, SameRules, unrequested-SameClients, unrequested-SameRules,
}
use heliop.Writes.{Reach, here, next}

-- The clients and the Ingresses of the cluster, those that the last run that ended without an error
-- has read, the requests that wait, and whether the controller has missed an Ingress since that
-- run.
pub record Queue : Type 0 where
  pub clients : List AutheliaOauthClient
  pub ingresses : List Ingress
  pub seen_clients : List AutheliaOauthClient
  pub seen_ingresses : List Ingress
  pub pending : List Request
  pub missed : Bool

module _ (c : Crypto) (cc : ClusterClient c.Source) (lib : Libraries) (build : Builder cc.State)
    (a : Authelia) where
  abbrev enqueued : Queue → List Request → Queue
  enqueued q requests = record q { pending = q.pending ++ requests }

  -- What happens: a client is created, changed or deleted; so is an Ingress, while the Authelia is
  -- in the list of all, or while that list cannot be read or does not hold the Authelia; a request
  -- for the Authelia is taken and its run, which reads the lists then, ends without an error;
  -- anything else that does not take a request for the Authelia. A run that fails gives its request
  -- back.
  pub data Happens (q q' : Queue) : Type 0 where
    client_changes :
        (xs ys : List AutheliaOauthClient) (event : Event oauth_client) (st : cc.State)
        → q.clients ≡ xs ++ (to_list event.old ++ ys)
        → q'
          ≡ enqueued
              (record q { clients = xs ++ (to_list event.new ++ ys) })
              (build (authelia_setup c cc) oauth_client event st)
        → Happens q q'
    ingress_changes :
        (xs ys : List Ingress) (event : Event ingress) (st : cc.State) (instances : List Authelia)
        → cc.list authelia st ≡ ok instances
        → Mem a instances
        → q.ingresses ≡ xs ++ (to_list event.old ++ ys)
        → q'
          ≡ enqueued
              (record q { ingresses = xs ++ (to_list event.new ++ ys) })
              (build (authelia_setup c cc) ingress event st)
        → Happens q q'
    ingress_missed :
        (xs ys : List Ingress) (event : Event ingress) (st : cc.State)
        → ¬ ((instances : List Authelia) × (cc.list authelia st ≡ ok instances) × Mem a instances)
        → q.ingresses ≡ xs ++ (to_list event.old ++ ys)
        → q'
          ≡ enqueued
              (record q { ingresses = xs ++ (to_list event.new ++ ys); missed = true })
              (build (authelia_setup c cc) ingress event st)
        → Happens q q'
    run_ends :
        (w v : World c cc) (r : ReconcileResult) (rest : List Request)
        → cc.list oauth_client w.0 ≡ ok q.clients
        → cc.list ingress w.0 ≡ ok q.ingresses
        → reconcile c cc lib (request_for a) w ≡ (ok r, v)
        → q' ≡ record q {
          seen_clients = q.clients;
          seen_ingresses = q.ingresses;
          pending = rest;
          missed = false;
        }
        → Happens q q'
    other_requests :
        (rest : List Request)
        → (Mem (request_for a) q.pending → Mem (request_for a) rest)
        → q' ≡ record q { pending = rest }
        → Happens q q'

  -- A run now would read what the last one has read, but for the rules of an Ingress that was missed.
  abbrev pub IsUpToDate : Queue → Type 0
  IsUpToDate q =
      SameClients a q.seen_clients q.clients
      × ((q.missed ≡ true) ⊎ SameRules q.seen_ingresses q.ingresses)

  -- There is nothing to do where nothing waits.
  abbrev IsIdleUpToDate : Queue → Type 0
  IsIdleUpToDate q = ¬ Mem (request_for a) q.pending → IsUpToDate q

  module _ (laws : IsBuilder build) (named : a.name ≢ "") where
    Happens-IsIdleUpToDate : (q q' : Queue) → Happens q q' → IsIdleUpToDate q → IsIdleUpToDate q'
    Happens-IsIdleUpToDate q q' (client_changes xs ys event st was is) h =
        subst IsIdleUpToDate (sym is) (λ quiet.
          let (clients, ingresses) = h (λ m. quiet (mem-append_left _ m)) in
          (
            λ get.
                rw was at (clients get)
                ∙ unrequested-SameClients c cc build laws a st xs ys event named
                    (λ m. quiet (mem-append_right q.pending m)) get,
            ingresses,
          ))
    Happens-IsIdleUpToDate q q' (ingress_changes xs ys event st instances all there was is) h =
        subst IsIdleUpToDate (sym is) (λ quiet.
          let (clients, ingresses) = h (λ m. quiet (mem-append_left _ m)) in
          (
            clients,
            elim ingresses [
              | inl missed ↦ inl missed
              | inr same ↦ inr (λ parse.
                  rw was at (same parse)
                  ∙ unrequested-SameRules c cc build laws a st xs ys event instances all there
                      (λ m. quiet (mem-append_right q.pending m)) parse)
            ],
          ))
    Happens-IsIdleUpToDate q q' (ingress_missed xs ys event st unlisted was is) h =
        subst IsIdleUpToDate (sym is)
          (λ quiet. ((h (λ m. quiet (mem-append_left _ m))).0, inl refl))
    Happens-IsIdleUpToDate q q' (run_ends w v r rest clients ingresses ran is) h =
        subst IsIdleUpToDate (sym is) (λ quiet. (λ get. refl, inr (λ parse. refl)))
    Happens-IsIdleUpToDate q q' (other_requests rest keeps is) h =
        subst IsIdleUpToDate (sym is) (λ quiet. h (λ m. quiet (keeps m)))

    up_to_date : {q q' : Queue} → IsIdleUpToDate q → Reach Happens q q' → IsIdleUpToDate q'
    up_to_date start here = start
    up_to_date start (next {u} {v} r s) = Happens-IsIdleUpToDate u v s (up_to_date start r)

    -- Let an Authelia have a name, and let there be a request for it in the queue of the Authelia
    -- controller at first. Then, after any changes of clients and Ingresses, runs that read the
    -- lists as they are, and other requests, where no request for it waits: a run would get from
    -- the list of the clients just what the last run that ended without an error got from it, the
    -- same clients, whatever the Secrets hold; and it would get the same rules from the list of the
    -- Ingresses, unless since that run an Ingress changed while the list of all Authelias could not
    -- be read or did not hold this one.
    pub Reach-IsUpToDate :
        {q q' : Queue}
        → Mem (request_for a) q.pending
        → Reach Happens q q'
        → ¬ Mem (request_for a) q'.pending
        → IsUpToDate q'
    Reach-IsUpToDate waits = up_to_date (λ quiet. absurd (quiet waits))
