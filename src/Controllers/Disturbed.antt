-- ===== src/Controllers/Disturbed.antt =====
-- The cluster in memory with someone else who writes after each CreateOrUpdate of a run. It shows that
-- what is assumed of a cluster that others change too can hold.
use heliop.Base.{List, ◌≡◌, refl}
use heliop.Base.Result.{Result}
use heliop.Cluster.{Kind, config_map, Obj, Key, ClusterClient}
use heliop.Cluster.Shared.{IsShared, undisturbed}
use heliop.Kubernetes.{ConfigMap}
use heliop.Controllers.Example.{Objects, put, memory, memory-IsCluster}
use heliop.Writes.{here, next}

-- The other's ConfigMap, of which each write makes the same.
abbrev other_key : Key
other_key = record { namespace = "auth"; name = "of-a-user" }

module _ (S : Type 0) (listed : (k : Kind) → List (Obj k)) (written : ConfigMap) where
  abbrev pub disturb : Objects → Objects
  disturb st = put config_map other_key written st

  abbrev then_disturb : {A : Type 0} → Result A × (Objects × S) → Result A × (Objects × S)
  then_disturb (r, (st, s)) = (r, (disturb st, s))

  abbrev pub disturbed : ClusterClient S
  disturbed = record (memory S listed) {
    create_or_update =
        λ k x mutate w. then_disturb ((memory S listed).create_or_update k x mutate w);
  }

  abbrev pub Disturbing : Objects → Objects → Type 0
  Disturbing u v = v ≡ disturb u

  unfoldable pub disturbed-IsShared : IsShared disturbed Disturbing
  unfolding memory-IsCluster
  disturbed-IsShared =
      let laws = memory-IsCluster S listed in
      record {
        find = laws.find;
        got = laws.got;
        created = λ k x st. undisturbed st _ (laws.created k x st);
        updated = λ k x mutate st s. record {
          before = st;
          after = ((memory S listed).create_or_update k x mutate (st, s)).1.0;
          waited = here;
          called = laws.updated k x mutate st s;
          moved_on = next here refl;
        };
        updated_status = λ k x st. undisturbed st _ (laws.updated_status k x st);
        owned = laws.owned;
      }
