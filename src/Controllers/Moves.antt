-- ===== src/Controllers/Moves.antt =====
-- How the calls of the cluster's API and their sequences move its state: along the changes that are
-- allowed, whatever they end in.
pub mod Authelias
pub mod Clients
use heliop.Base.{String, Bool, true, false, Option, none, some, if◌then◌else◌, ◌≡◌, refl, inl, inr}
use heliop.Base.Action.{Action, pure, reads, ◌>>=◌, Moves, Moves->>=}
use heliop.Base.Options.{get_or}
use heliop.Base.Result.{Result, Ensures, Ensures-eq}
use heliop.Cluster.{Kind, Obj, key_of, with_status, ClusterClient}
use heliop.Cluster.Shared.{Amid, IsShared}
use heliop.Secrets.{Crypto}
use heliop.Controllers.{World, on_cluster, when_some}
use heliop.Writes.{
  Change, quiet, write, Reach, here, next, Reach-trans, Reach-map, Joint, by_us, by_others,
}

-- Where writes are allowed: a namespace, a name for each kind and what may replace an object.
pub record Scope : Type 1 where
  pub namespace : String
  pub names : Kind → Option String
  pub Fit : (k : Kind) → Option (Obj k) → Obj k → Type 0

module _ (c : Crypto) (cc : ClusterClient c.Source) {Rely : cc.State → cc.State → Type 0}
    (laws : IsShared cc Rely) where
  module _ (p : Scope) where
    abbrev pub Allowed : cc.State → cc.State → Type 0
    Allowed = Joint (Change laws.find p.namespace p.names p.Fit) Rely

    abbrev pub Writing : World c cc → World c cc → Type 0
    Writing u v = Reach Allowed u.0 v.0

    -- A call of which the effect is allowed, amid the steps of the others.
    amid :
        {R : cc.State → cc.State → Type 0} {st st' : cc.State}
        → Amid Rely R st st'
        → ((u v : cc.State) → R u v → Change laws.find p.namespace p.names p.Fit u v)
        → Reach Allowed st st'
    amid a f =
        Reach-trans
          (next (Reach-map (λ u v h. by_others h) a.waited) (by_us (f a.before a.after a.called)))
          (Reach-map (λ u v h. by_others h) a.moved_on)

    trans : (u v w : World c cc) → Writing u v → Writing v w → Writing u w
    trans u v w h k = Reach-trans h k

    pub update-Moves :
        (k : Kind) (x : Obj k) (name : String)
        (mutate : Obj k → c.Source → Result (Obj k × c.Source))
        → p.names k ≡ some name
        → key_of k x ≡ record { namespace = p.namespace; name = name }
        → ((o : Option (Obj k)) (s : c.Source)
            → Ensures (λ r. p.Fit k o r.0) (mutate (get_or x o) s))
        → Moves Writing (cc.create_or_update k x mutate)
    update-Moves k x name mutate owned key fits (st, s) =
        amid (laws.updated k x mutate st s) (λ u v h. elim h [
          | inl same ↦ quiet same
          | inr (y, t, up) ↦
              let o = laws.find k (key_of k x).namespace (key_of k x).name u in
              write k name y owned
                (rw key at
                  (Ensures-eq (λ r. p.Fit k o r.0) (mutate (get_or x o) s) (fits o s) up.mutated))
                (rw key at up.written)
        ])

    pub status-Moves :
        (k : Kind) (x : Obj k) (name : String)
        → p.names k ≡ some name
        → key_of k x ≡ record { namespace = p.namespace; name = name }
        → ((o : Obj k) → p.Fit k (some o) (with_status k x o))
        → Moves Writing (on_cluster c cc (cc.update_status k x))
    status-Moves k x name owned key fits (st, s) = amid (laws.updated_status k x st) (λ u v h.
        elim h [
          | inl same ↦ quiet same
          | inr up ↦
              write k name (with_status k x up.old) owned (rw (rw key at up.found) (fits up.old))
                (rw key at up.written)
        ])

    pub create-Moves :
        (k : Kind) (x : Obj k) (name : String)
        → p.names k ≡ some name
        → key_of k x ≡ record { namespace = p.namespace; name = name }
        → p.Fit k none x
        → Moves Writing (on_cluster c cc (cc.create k x))
    create-Moves k x name owned key fits (st, s) = amid (laws.created k x st) (λ u v h. elim h [
      | inl same ↦ quiet same
      | inr up ↦ write k name x owned (rw (rw key at up.absent) fits) (rw key at up.written)
    ])

    pub >>=-Moves :
        {A B : Type 0} (m : Action (World c cc) A) (f : A → Action (World c cc) B)
        → Moves Writing m
        → ((a : A) → Moves Writing (f a))
        → Moves Writing (m >>= f)
    >>=-Moves = Moves->>= Writing trans

    pub if-Moves :
        {A : Type 0} (b : Bool) (m k : Action (World c cc) A)
        → (b ≡ true → Moves Writing m)
        → (b ≡ false → Moves Writing k)
        → Moves Writing (if b then m else k)
    if-Moves true m k h g = h refl
    if-Moves false m k h g = g refl

    pub when_some-Moves :
        {A : Type 0} (o : Option A) (m : Action (World c cc) (Unit {0}))
        → Moves Writing m
        → Moves Writing (when_some o m)
    when_some-Moves none m h w = here
    when_some-Moves (some _) m h w = h w

    pub then_done-Moves :
        {A B : Type 0} (m : Action (World c cc) A) (f : A → B)
        → Moves Writing m
        → Moves Writing (m >>= λ a. pure (f a))
    then_done-Moves m f h = >>=-Moves m (λ a. pure (f a)) h (λ a w. here)
