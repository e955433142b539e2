-- ===== src/Cluster/Shared.antt =====
-- A cluster that other actors change as well while a run of a controller of internal/controller is
-- under way: users, the kubelet, the other controller.
use heliop.Base.{String, Option, some, ◌≡◌, ◌⊎◌}
use heliop.Base.Result.{Result, ok}
use heliop.Kubernetes.{ObjectMeta}
use heliop.Cluster.{
  Kind, Obj, key_of, owner_reference, ClusterClient, SameObjects, Creates, Updates, UpdatesStatus,
  IsCluster,
}
use heliop.Writes.{Reach, here}

-- A call amid what the others do: before and after it, they take any number of their steps.
pub record Amid {State : Type 0} (Rely R : State → State → Type 0) (st st' : State) : Type 0 where
  pub before : State
  pub after : State
  pub waited : Reach Rely st before
  pub called : R before after
  pub moved_on : Reach Rely after st'

-- What the calls document where others write too, each step of theirs in `Rely`: a write is applied to
-- what the cluster holds at that moment, or it is not.
pub record IsShared {Source : Type 0} (cc : ClusterClient Source)
    (Rely : cc.State → cc.State → Type 0) : Type 0 where
  pub find : (k : Kind) → String → String → cc.State → Option (Obj k)
  pub got :
      (k : Kind) (namespace name : String) (x : Obj k) (st : cc.State)
      → cc.get k namespace name st ≡ ok x
      → key_of k x ≡ record { namespace = namespace; name = name }
  pub created :
      (k : Kind) (x : Obj k) (st : cc.State)
      → Amid Rely (λ u v. SameObjects find u v ⊎ Creates find k x u v) st (cc.create k x st).1
  pub updated :
      (k : Kind) (x : Obj k) (mutate : Obj k → Source → Result (Obj k × Source))
      → (st : cc.State) (s : Source)
      → Amid Rely
          (λ u v.
            SameObjects find u v ⊎ ((y : Obj k) × (t : Source) × Updates find k x mutate u s y v t))
          st
          (cc.create_or_update k x mutate (st, s)).1.0
  pub updated_status :
      (k : Kind) (x : Obj k) (st : cc.State)
      → Amid Rely
          (λ u v. SameObjects find u v ⊎ UpdatesStatus find k x u v)
          st
          (cc.update_status k x st).1
  pub owned :
      (k : Kind) (namespace name : String) (meta meta' : ObjectMeta)
      → cc.own k namespace name meta ≡ ok meta'
      → meta' ≡ record meta { owner = some (owner_reference k name) }

-- With no one else, each call is alone.
abbrev pub NoOne : {State : Type 0} → State → State → Type 0
NoOne u v = ⊥

abbrev pub undisturbed :
    {State : Type 0} {Rely R : State → State → Type 0} (u v : State) → R u v → Amid Rely R u v
undisturbed u v h = record { before = u; after = v; waited = here; called = h; moved_on = here }

abbrev pub alone : {Source : Type 0} (cc : ClusterClient Source) → IsCluster cc → IsShared cc NoOne
alone cc laws = record {
  find = laws.find;
  got = laws.got;
  created = λ k x st. undisturbed st _ (laws.created k x st);
  updated = λ k x mutate st s. undisturbed st _ (laws.updated k x mutate st s);
  updated_status = λ k x st. undisturbed st _ (laws.updated_status k x st);
  owned = laws.owned;
}
