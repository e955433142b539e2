-- ===== src/Controllers/Watches/Example.antt =====
-- A builder that makes the requests of an event and no other ones. It shows that what is assumed of the
-- builder of internal/controller's SetupWithManager methods can hold.
use mathlib.Core.List.{
  mem-append, mem-append_left, mem-append_right, mem-cons, mem-cons_self, mem-cons_of_mem,
  not-mem-nil,
}
use mathlib.Core.Logic.{∥∥₁_elim}
use mathlib.Core.Logic.Or
use heliop.Base.{
  String, Option, none, some, List, [], ◌∷◌, ◌++◌, Mem, ◌≡◌, refl, sym, ap, inl, inr, String-cases,
  if◌then◌else◌, ◌==◌, eq_iff, if_true, if_false,
}
use heliop.Base.Options.{to_list}
use heliop.Kubernetes.{OwnerReference}
use heliop.Cluster.{Kind, Obj, key_of, kind_name}
use heliop.OauthClients.{Request}
use heliop.Writes.Frames.{Kind-discrete}
use heliop.Controllers.Watches.{
  Event, Shows, Setup, request_of_key, owner_of, Makes, of_resource, of_owner, of_watched, Builder,
  IsBuilder,
}

module _ {A B : Type 0} where
  abbrev flat : (A → List B) → List A → List B
  flat f [] = []
  flat f (x ∷ xs) = f x ++ flat f xs

  flat-Mem :
      (f : A → List B) (x : A) (xs : List A) (y : B) → Mem x xs → Mem y (f x) → Mem y (flat f xs)
  flat-Mem f x [] y m n = absurd (not-mem-nil m)
  flat-Mem f x (z ∷ xs) y m n =
      Or.elim squash₁ (mem-cons.0 m) (λ e. mem-append_left (flat f xs) (rw (← e) n))
        (λ k. mem-append_right (f z) (flat-Mem f x xs y k n))

  Mem-flat :
      (f : A → List B) (xs : List A) (y : B)
      → Mem y (flat f xs)
      → ∥ ((x : A) × Mem x xs × Mem y (f x)) ∥₁
  Mem-flat f [] y m = absurd (not-mem-nil m)
  Mem-flat f (z ∷ xs) y m =
      Or.elim squash₁ (mem-append.0 m) (λ n. ∣ (z, mem-cons_self, n) ∣₁)
        (λ k.
          ∥∥₁_elim (Mem-flat f xs y k) squash₁
            (λ (x, there, n). ∣ (x, mem-cons_of_mem z there, n) ∣₁))

abbrev when : {P : Type 0} → Dec P → List Request → List Request
when (yes _) reqs = reqs
when (no _) reqs = []

when-yes : {P : Type 0} (d : Dec P) (reqs : List Request) → P → when d reqs ≡ reqs
when-yes (yes _) reqs p = refl
when-yes (no n) reqs p = absurd (n p)

Mem-when :
    {P : Type 0} (d : Dec P) (reqs : List Request) (req : Request)
    → Mem req (when d reqs)
    → P × Mem req reqs
Mem-when (yes p) reqs req m = (p, m)
Mem-when (no n) reqs req m = absurd (not-mem-nil m)

Mem-to_list : {A : Type 0} (o : Option A) (x : A) → Mem x (to_list o) → ∥ o ≡ some x ∥₁
Mem-to_list none x m = absurd (not-mem-nil m)
Mem-to_list (some y) x m =
    Or.elim squash₁ (mem-cons.0 m) (λ e. ∣ ap some (sym e) ∣₁) (λ n. absurd (not-mem-nil n))

Mem-of_shown : {A : Type 0} (o : Option A) (x : A) → o ≡ some x → Mem x (to_list o)
Mem-of_shown o x e = rw e mem-cons_self

abbrev owner_requests : String → String → Option OwnerReference → List Request
owner_requests kind ns none = []
owner_requests kind ns (some owner) =
    if owner.kind == kind then record { namespace = ns; name = owner.name } ∷ [] else []

owner_requests-Mem :
    (kind ns : String) (o : Option OwnerReference) (owner : OwnerReference) (req : Request)
    → o ≡ some owner
    → owner.kind ≡ kind
    → req ≡ record { namespace = ns; name = owner.name }
    → Mem req (owner_requests kind ns o)
owner_requests-Mem kind ns o owner req owned same is =
    rw
      (
        owned,
        if_true {A = List Request} (record { namespace = ns; name = owner.name } ∷ []) []
            ((eq_iff owner.kind kind).1 same),
        is,
      )
      mem-cons_self

Mem-owner_requests :
    (kind ns : String) (o : Option OwnerReference) (req : Request)
    → Mem req (owner_requests kind ns o)
    → ∥ (
        (owner : OwnerReference) × (o ≡ some owner)
        × (owner.kind ≡ kind)
        × (req ≡ record { namespace = ns; name = owner.name })) ∥₁
Mem-owner_requests kind ns none req m = absurd (not-mem-nil m)
Mem-owner_requests kind ns (some owner) req m = elim (String-cases owner.kind kind) [
  | inl same ↦
      Or.elim squash₁ (mem-cons.0 (rw (if_true _ _ ((eq_iff owner.kind kind).1 same)) at m))
        (λ e. ∣ (owner, refl, same, e) ∣₁) (λ n. absurd (not-mem-nil n))
  | inr other ↦ absurd (not-mem-nil (rw (if_false _ _ other) at m))
]

module _ {State : Type 0} (setup : Setup State) (k : Kind) (st : State) where
  abbrev for_owned : Obj k → Kind → List Request
  for_owned x j =
      when (Kind-discrete k j)
        (owner_requests (kind_name setup.resource) (key_of k x).namespace (owner_of k x))

  abbrev for_watched : Obj k → List Request
  for_watched x = flat (λ requests. requests x st) (setup.watched k)

  abbrev for_others : Obj k → List Request
  for_others x = flat (for_owned x) setup.owned ++ for_watched x

  abbrev of_object : Obj k → List Request
  of_object x = when (Kind-discrete k setup.resource) (request_of_key k x ∷ []) ++ for_others x

  abbrev objects : Event k → List (Obj k)
  objects event = to_list event.old ++ to_list event.new

  Shows-objects : (x : Obj k) (event : Event k) → Shows x event → Mem x (objects event)
  Shows-objects x event (inl e) = mem-append_left (to_list event.new) (Mem-of_shown event.old x e)
  Shows-objects x event (inr e) = mem-append_right (to_list event.old) (Mem-of_shown event.new x e)

  objects-Shows : (x : Obj k) (event : Event k) → Mem x (objects event) → ∥ Shows x event ∥₁
  objects-Shows x event m =
      Or.elim squash₁ (mem-append.0 m)
        (λ n. ∥∥₁_elim (Mem-to_list event.old x n) squash₁ (λ e. ∣ inl e ∣₁))
        (λ n. ∥∥₁_elim (Mem-to_list event.new x n) squash₁ (λ e. ∣ inr e ∣₁))

  enqueued :
      (event : Event k) (req : Request)
      → Makes setup event st req
      → Mem req (flat of_object (objects event))
  enqueued event req (of_resource x is shows same) =
      flat-Mem of_object x _ req (Shows-objects x event shows) (
        mem-append_left (for_others x) (
          rw (when-yes (Kind-discrete k setup.resource) (request_of_key k x ∷ []) is, same)
            mem-cons_self))
  enqueued event req (of_owner x owner watched shows owned kind same) =
      flat-Mem of_object x _ req (Shows-objects x event shows) (
        mem-append_right _ (
          mem-append_left (for_watched x) (
            flat-Mem (for_owned x) k _ req watched (
              rw (when-yes (Kind-discrete k k) _ refl)
                (owner_requests-Mem _ _ _ owner req owned kind same)))))
  enqueued event req (of_watched x requests watched shows there) =
      flat-Mem of_object x _ req (Shows-objects x event shows) (
        mem-append_right _
          (mem-append_right _ (flat-Mem (λ requests. requests x st) requests _ req watched there)))

  object-Makes :
      (x : Obj k) (event : Event k) (req : Request)
      → Shows x event
      → Mem req (of_object x)
      → ∥ Makes setup event st req ∥₁
  object-Makes x event req shows m =
      Or.elim squash₁ (mem-append.0 m)
        (λ n.
          let (is, there) = Mem-when (Kind-discrete k setup.resource) _ req n in
          Or.elim squash₁ (mem-cons.0 there) (λ e. ∣ of_resource x is shows e ∣₁)
            (λ o. absurd (not-mem-nil o)))
        (λ n.
          Or.elim squash₁ (mem-append.0 n)
            (λ o. ∥∥₁_elim (Mem-flat (for_owned x) setup.owned req o) squash₁ (λ (j, watched, p).
              let (is, there) = Mem-when (Kind-discrete k j) _ req p in
              ∥∥₁_elim (Mem-owner_requests _ _ (owner_of k x) req there) squash₁
                (λ (owner, owned, kind, same).
                  ∣ of_owner x owner (rw is watched) shows owned kind same ∣₁)))
            (λ o.
              ∥∥₁_elim (Mem-flat (λ requests. requests x st) (setup.watched k) req o) squash₁
                (λ (requests, watched, p). ∣ of_watched x requests watched shows p ∣₁)))

  made :
      (event : Event k) (req : Request)
      → Mem req (flat of_object (objects event))
      → ∥ Makes setup event st req ∥₁
  made event req m = ∥∥₁_elim (Mem-flat of_object (objects event) req m) squash₁ (λ (x, there, n).
      ∥∥₁_elim (objects-Shows x event there) squash₁ (λ shows. object-Makes x event req shows n))

abbrev pub builder : {State : Type 0} → Builder State
builder setup k event st = flat (of_object setup k st) (objects setup k st event)

pub builder-IsBuilder : {State : Type 0} → IsBuilder {State = State} builder
builder-IsBuilder = record {
  enqueues = λ setup k event st req. enqueued setup k st event req;
  only = λ setup k event st req. made setup k st event req;
}
