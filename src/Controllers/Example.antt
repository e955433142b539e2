-- ===== src/Controllers/Example.antt =====
-- A cluster in memory: objects by kind, namespace and name, with calls that fail on a missing object
-- only. It shows that what is assumed of the cluster's API can hold.
use mathlib.Core.Path.{subst, subst_refl}
use heliop.Base.{
  Bool-cases, String, Bool, true, false, Option, none, some, List, ◌≡◌, ◌⊎◌, refl, sym, ap, ◌∙◌,
  inl, inr, ◌==◌, ◌&&◌, arith, eq_iff,
}
use heliop.Base.Action.{Action, failed, panicked}
use heliop.Base.Options.{get_or}
use heliop.Base.Result.{Result, ok, err, panic, not_found, api, Ensures-eq, IsOk}
use heliop.Kubernetes.{ObjectMeta}
use heliop.Cluster.{
  Kind, secret, config_map, service, deployment, claim, authelia, oauth_client, ingress, Obj, Key,
  key_of, with_status, ClusterClient, IsCluster, IsCurrent, IsUp, SameObjects, Puts, Creates,
  Updates, UpdatesStatus, owner_reference,
}
use heliop.Writes.Frames.{Kind-discrete}

Kind-set : IsSet Kind
Kind-set = hlevel

abbrev pub Objects : Type 0
Objects = (k : Kind) → String → String → Option (Obj k)

abbrev put_at : {j k : Kind} → Dec (j ≡ k) → Bool → Obj j → Option (Obj k) → Option (Obj k)
put_at (yes e) true x old = some (subst Obj e x)
put_at (yes e) false x old = old
put_at (no _) b x old = old

abbrev same_key : Key → String → String → Bool
same_key key ns n = ns == key.namespace && n == key.name

abbrev pub put : (k : Kind) → Key → Obj k → Objects → Objects
put k key x st j ns n = put_at (Kind-discrete k j) (same_key key ns n) x (st j ns n)

abbrev find : (k : Kind) → String → String → Objects → Option (Obj k)
find k ns n st = st k ns n

put_at-here :
    (k : Kind) (d : Dec (k ≡ k)) (x : Obj k) (old : Option (Obj k)) → put_at d true x old ≡ some x
put_at-here k (yes e) x old =
    ap (λ d. some (subst Obj d x)) (Kind-set k k e refl) ∙ ap some (subst_refl Obj x)
put_at-here k (no d) x old = absurd (d refl)

put_at-elsewhere :
    (j k : Kind) (d : Dec (j ≡ k)) (b : Bool) (x : Obj j) (old : Option (Obj k))
    → ((k ≡ j) → b ≡ false)
    → put_at d b x old ≡ old
put_at-elsewhere j k (yes e) true x old h = absurd (let no = h (sym e) in ground arith)
put_at-elsewhere j k (yes e) false x old h = refl
put_at-elsewhere j k (no _) b x old h = refl

same_key-elsewhere :
    (key : Key) (ns n : String)
    → ¬ ((ns ≡ key.namespace) × (n ≡ key.name))
    → same_key key ns n ≡ false
same_key-elsewhere key ns n other = elim (Bool-cases (same_key key ns n)) [
  | inl same ↦
      absurd
        (other ((eq_iff ns key.namespace).0 (ground arith), (eq_iff n key.name).0 (ground arith)))
  | inr differs ↦ differs
]

same_key-here : (key : Key) → same_key key key.namespace key.name ≡ true
same_key-here key =
    let a = (eq_iff key.namespace key.namespace).1 refl in
    let b = (eq_iff key.name key.name).1 refl in ground arith

pub put-Puts :
    (k : Kind) (key : Key) (x : Obj k) (st : Objects) → Puts find k key x st (put k key x st)
put-Puts k key x st = record {
  here =
      ap (λ b. put_at (Kind-discrete k k) b x (st k key.namespace key.name)) (same_key-here key)
      ∙ put_at-here k (Kind-discrete k k) x (st k key.namespace key.name);
  elsewhere = λ j ns n other.
      put_at-elsewhere k j (Kind-discrete k j) (same_key key ns n) x (st j ns n)
        (λ same. same_key-elsewhere key ns n (λ (a, b). other (same, a, b)));
}

abbrev renamed : ObjectMeta → String → String → ObjectMeta
renamed meta ns n = record meta { namespace = ns; name = n }

-- An object is read under the name that it is stored under.
abbrev read_as : (k : Kind) → String → String → Obj k → Obj k
read_as secret ns n x = record x { meta = renamed x.meta ns n }
read_as config_map ns n x = record x { meta = renamed x.meta ns n }
read_as service ns n x = record x { meta = renamed x.meta ns n }
read_as deployment ns n x = record x { meta = renamed x.meta ns n }
read_as claim ns n x = record x { meta = renamed x.meta ns n }
read_as authelia ns n x = record x { namespace = ns; name = n }
read_as oauth_client ns n x = record x { namespace = ns; name = n }
read_as ingress ns n x = record x { namespace = ns; name = n }

read_as-key :
    (k : Kind) (ns n : String) (x : Obj k)
    → key_of k (read_as k ns n x) ≡ record { namespace = ns; name = n }
read_as-key secret ns n x = refl
read_as-key config_map ns n x = refl
read_as-key service ns n x = refl
read_as-key deployment ns n x = refl
read_as-key claim ns n x = refl
read_as-key authelia ns n x = refl
read_as-key oauth_client ns n x = refl
read_as-key ingress ns n x = refl

abbrev get_at : (k : Kind) → String → String → Option (Obj k) → Result (Obj k)
get_at k ns n none = err not_found
get_at k ns n (some x) = ok (read_as k ns n x)

abbrev create_at : (k : Kind) → Obj k → Option (Obj k) → Action Objects (Unit {0})
create_at k x none st = (ok tt, put k (key_of k x) x st)
create_at k x (some _) st = (err api, st)

abbrev update_at :
    (k : Kind) {S : Type 0} → Obj k → Result (Obj k × S) → Action (Objects × S) (Obj k)
update_at k x (ok (y, t)) w = (ok y, (put k (key_of k x) y w.0, t))
update_at k x (err e) w = (err e, w)
update_at k x panic w = (panic, w)

abbrev status_at : (k : Kind) → Obj k → Option (Obj k) → Action Objects (Unit {0})
status_at k x none st = (err not_found, st)
status_at k x (some old) st = (ok tt, put k (key_of k x) (with_status k x old) st)

abbrev at : (k : Kind) → Obj k → Objects → Option (Obj k)
at k x st = st k (key_of k x).namespace (key_of k x).name

pub got_lem :
    (k : Kind) (ns n : String) (x : Obj k) (o : Option (Obj k))
    → get_at k ns n o ≡ ok x
    → key_of k x ≡ record { namespace = ns; name = n }
got_lem k ns n x none e = absurd (cc e)
got_lem k ns n x (some y) e =
    Ensures-eq (λ z. key_of k z ≡ record { namespace = ns; name = n }) (ok (read_as k ns n y))
      (read_as-key k ns n y) e

pub created_ok_lem :
    (k : Kind) (x : Obj k) (o : Option (Obj k)) (st st' : Objects)
    → at k x st ≡ o
    → create_at k x o st ≡ (ok tt, st')
    → Creates find k x st st'
created_ok_lem k x none st st' h e =
    subst (Creates find k x st) (ap (λ p. p.1) e)
      (record { absent = h; written = put-Puts k (key_of k x) x st })
created_ok_lem k x (some y) st st' h e = absurd (failed api tt st st' e)

pub created_lem :
    (k : Kind) (x : Obj k) (o : Option (Obj k)) (st : Objects)
    → at k x st ≡ o
    → SameObjects find st (create_at k x o st).1 ⊎ Creates find k x st (create_at k x o st).1
created_lem k x none st h = inr (created_ok_lem k x none st _ h refl)
created_lem k x (some y) st h = inl (λ j ns n. refl)

pub status_ok_lem :
    (k : Kind) (x : Obj k) (o : Option (Obj k)) (st st' : Objects)
    → at k x st ≡ o
    → status_at k x o st ≡ (ok tt, st')
    → UpdatesStatus find k x st st'
status_ok_lem k x none st st' h e = absurd (failed not_found tt st st' e)
status_ok_lem k x (some old) st st' h e =
    subst (UpdatesStatus find k x st) (ap (λ p. p.1) e)
      (record { old = old; found = h; written = put-Puts k (key_of k x) (with_status k x old) st })

pub status_lem :
    (k : Kind) (x : Obj k) (o : Option (Obj k)) (st : Objects)
    → at k x st ≡ o
    → SameObjects find st (status_at k x o st).1 ⊎ UpdatesStatus find k x st (status_at k x o st).1
status_lem k x none st h = inl (λ j ns n. refl)
status_lem k x (some old) st h = inr (status_ok_lem k x (some old) st _ h refl)

module _ {S : Type 0} (k : Kind) (x : Obj k) (mutate : Obj k → S → Result (Obj k × S)) where
  pub updated_ok_lem :
      (r : Result (Obj k × S)) (y : Obj k) (w w' : Objects × S)
      → mutate (get_or x (at k x w.0)) w.1 ≡ r
      → update_at k x r w ≡ (ok y, w')
      → Updates find k x mutate w.0 w.1 y w'.0 w'.1
  updated_ok_lem (ok (z, t)) y w w' h e =
      let z_is_y : z ≡ y = Ensures-eq (λ v. z ≡ v) (ok z) refl (ap (λ p. p.0) e) in
      subst (λ v. Updates find k x mutate w.0 w.1 y v.0 v.1) (ap (λ p. p.1) e)
        (rw (← z_is_y) (record { mutated = h; written = put-Puts k (key_of k x) z w.0 }))
  updated_ok_lem (err x') y w w' h e = absurd (failed x' y w w' e)
  updated_ok_lem panic y w w' h e = absurd (panicked y w w' e)

  pub updated_lem :
      (r : Result (Obj k × S)) (w : Objects × S)
      → mutate (get_or x (at k x w.0)) w.1 ≡ r
      → SameObjects find w.0 (update_at k x r w).1.0
        ⊎ ((y : Obj k) × (t : S) × Updates find k x mutate w.0 w.1 y (update_at k x r w).1.0 t)
  updated_lem (ok (y, t)) w h = inr (y, t, updated_ok_lem (ok (y, t)) y w _ h refl)
  updated_lem (err e) w h = inl (λ j ns n. refl)
  updated_lem panic w h = inl (λ j ns n. refl)

update_at-IsOk :
    {S : Type 0} (k : Kind) (x : Obj k) (r : Result (Obj k × S)) (w : Objects × S)
    → IsOk r
    → IsOk (update_at k x r w).0
update_at-IsOk k x (ok (y, t)) w h = (y, refl)
update_at-IsOk k x (err e) w h = absurd (let bad = h.1 in cc bad)
update_at-IsOk k x panic w h = absurd (let bad = h.1 in cc bad)

-- `listed` is what the lists give.
module _ (S : Type 0) (listed : (k : Kind) → List (Obj k)) where
  abbrev pub memory : ClusterClient S
  memory = record {
    State = Objects;
    get = λ k ns n st. get_at k ns n (st k ns n);
    list = λ k st. ok (listed k);
    create = λ k x st. create_at k x (at k x st) st;
    create_or_update = λ k x mutate w. update_at k x (mutate (get_or x (at k x w.0)) w.1) w;
    update_status = λ k x st. status_at k x (at k x st) st;
    own = λ k ns n meta. ok (record meta { owner = some (owner_reference k n) });
  }

  unfoldable pub memory-IsCluster : IsCluster memory
  memory-IsCluster = record {
    find = find;
    got = λ k ns n x st. got_lem k ns n x (st k ns n);
    created_ok = λ k x st st'. created_ok_lem k x (at k x st) st st' refl;
    created = λ k x st. created_lem k x (at k x st) st refl;
    updated =
        λ k x mutate st s. updated_lem k x mutate (mutate (get_or x (at k x st)) s) (st, s) refl;
    updated_status_ok = λ k x st st'. status_ok_lem k x (at k x st) st st' refl;
    updated_status = λ k x st. status_lem k x (at k x st) st refl;
    owned = λ k ns n meta meta' e.
        Ensures-eq (λ m. m ≡ record meta { owner = some (owner_reference k n) })
          (ok (record meta { owner = some (owner_reference k n) })) refl e;
  }

  pub memory-IsCurrent : IsCurrent memory memory-IsCluster
  unfolding memory-IsCluster
  memory-IsCurrent = record {
    updated_ok = λ k x y mutate st st' s t.
        updated_ok_lem k x mutate (mutate (get_or x (at k x st)) s) y (st, s) (st', t) refl;
  }

  pub memory-IsUp : IsUp memory memory-IsCluster
  unfolding memory-IsCluster
  memory-IsUp = record {
    gets = λ k ns n x st e. (read_as k ns n x, ap (get_at k ns n) e);
    misses = λ k ns n st e. ap (get_at k ns n) e;
    creates = λ k x st e. ap (λ o. (create_at k x o st).0) e;
    updates = λ k x mutate st s h. update_at-IsOk k x _ (st, s) h;
    updates_status = λ k x o st e. ap (λ z. (status_at k x z st).0) e;
    owns = λ k ns n meta. (record meta { owner = some (owner_reference k n) }, refl);
  }
