-- ===== src/Ingress/Domains.antt =====
-- ingressDomains of internal/controller/ingress.go.
use mathlib.Core.List.{Nodup, Nodup-concat, concat-eq-append}
use mathlib.Core.List.Perm
use mathlib.Core.List.Pairwise
use heliop.Base.{
  String, Bool, true, ◌&&◌, ◌||◌, not, List, [], ◌∷◌, ◌++◌, Pairwise, ◌≡◌, refl, sym, ◌∙◌, arith,
  eq_iff, ◌==◌, contains, contains-append, contains-perm, contains_iff, Bool-cases, inl, inr,
}
use heliop.Base.Dict.{Dict, lookup, insert, lookup-insert}
use heliop.Base.Order.{str_order, lt_str_of_ne}
use heliop.Base.Sort.{sort, sort-perm, sort-IsSorted}
use heliop.Base.Strings.{lt_str}
use heliop.Ingress.{
  IngressRule, IngressTls, Ingress, HostSet, is_set, add, add_hosts, add_rules, add_tls,
  ingress_domains,
}

-- The hosts that an Ingress names, in order, with repetitions.
abbrev pub rule_hosts : List IngressRule → List String
rule_hosts [] = []
rule_hosts (r ∷ rs) = r.host ∷ rule_hosts rs

abbrev pub tls_hosts : List IngressTls → List String
tls_hosts [] = []
tls_hosts (t ∷ ts) = t.hosts ++ tls_hosts ts

abbrev pub all_hosts : Ingress → List String
all_hosts ing = rule_hosts ing.rules ++ tls_hosts ing.tls

-- The map holds just the hosts of the slice, once each.
record IsTracked (d : HostSet) : Type 0 where
  same : (h : String) → is_set h d.seen ≡ contains d.domains h
  once : Nodup d.domains

is_set-insert : (k j : String) (m : Dict Bool) → is_set j (insert k true m) ≡ (k == j || is_set j m)
unfolding is_set
is_set-insert k j m = ground (arith, lookup-insert k j true m)

-- What one host adds.
contains-add :
    (d : HostSet) (h x : String)
    → IsTracked d
    → contains (add d h).domains x ≡ (contains d.domains x || (not (x == "") && h == x))
unfolding add
contains-add d h x t =
    ground
      (arith, t.same h, eq_iff h "", eq_iff h x, eq_iff x "", contains-append d.domains (h ∷ []) x)

add-IsTracked : (d : HostSet) (h : String) → IsTracked d → IsTracked (add d h)
unfolding add
add-IsTracked d h t = elim (Bool-cases (h == "" || is_set h d.seen)) [
  | inl old ↦ rw old t
  | inr new ↦ rw new (record {
    same = λ x.
        ground (arith, is_set-insert h x d.seen, t.same x, contains-append d.domains (h ∷ []) x);
    once = rw (← concat-eq-append d.domains h) (
        (Nodup-concat d.domains h).1
          ((λ m. let old = (contains_iff _ h).1 m in ground (arith, t.same h)), t.once));
  })
]

-- A fold of `add` over hosts.
add_hosts-IsTracked : (d : HostSet) (hs : List String) → IsTracked d → IsTracked (add_hosts d hs)
unfolding add_hosts
add_hosts-IsTracked d [] t = t
add_hosts-IsTracked d (h ∷ hs) t = add_hosts-IsTracked (add d h) hs (add-IsTracked d h t)

contains-add_hosts :
    (d : HostSet) (hs : List String) (x : String)
    → IsTracked d
    → contains (add_hosts d hs).domains x
      ≡ (contains d.domains x || (not (x == "") && contains hs x))
unfolding add_hosts
contains-add_hosts d [] x t = ground arith
contains-add_hosts d (h ∷ hs) x t =
    ground (arith, contains-add_hosts (add d h) hs x (add-IsTracked d h t), contains-add d h x t)

add_rules-hosts :
    (d : HostSet) (rs : List IngressRule) → add_rules d rs ≡ add_hosts d (rule_hosts rs)
unfolding add_rules add_hosts
add_rules-hosts d [] = refl
add_rules-hosts d (r ∷ rs) = add_rules-hosts (add d r.host) rs

add_hosts-append :
    (d : HostSet) (hs ks : List String) → add_hosts d (hs ++ ks) ≡ add_hosts (add_hosts d hs) ks
unfolding add_hosts
add_hosts-append d [] ks = refl
add_hosts-append d (h ∷ hs) ks = add_hosts-append (add d h) hs ks

add_tls-hosts : (d : HostSet) (ts : List IngressTls) → add_tls d ts ≡ add_hosts d (tls_hosts ts)
unfolding add_tls
add_tls-hosts d [] = unfold add_hosts in refl
add_tls-hosts d (t ∷ ts) =
    add_tls-hosts (add_hosts d t.hosts) ts ∙ sym (add_hosts-append d t.hosts (tls_hosts ts))

abbrev no_hosts : HostSet
no_hosts = record { seen = []; domains = [] }

no_hosts-IsTracked : IsTracked no_hosts
unfolding is_set lookup
no_hosts-IsTracked = record { same = λ h. refl; once = Pairwise.nil }

-- The domains are the sorted hosts of one fold.
ingress_domains-sort :
    (ing : Ingress) → ingress_domains ing ≡ sort lt_str (add_hosts no_hosts (all_hosts ing)).domains
unfolding ingress_domains
ingress_domains-sort ing =
    rw
      (
        add_rules-hosts,
        add_tls-hosts,
        ← add_hosts-append no_hosts (rule_hosts ing.rules) (tls_hosts ing.tls),
      )
      refl

-- A text is among the domains exactly when it is a host of a rule or of a TLS entry and not empty.
pub contains-ingress_domains :
    (ing : Ingress) (x : String)
    → contains (ingress_domains ing) x ≡ (not (x == "") && contains (all_hosts ing) x)
contains-ingress_domains ing x = rw (ingress_domains-sort ing) (
    contains-perm _ _ (sort-perm lt_str _) x
    ∙ contains-add_hosts no_hosts (all_hosts ing) x no_hosts-IsTracked)

-- The domains ascend strictly: they are sorted and none is repeated.
pub ingress_domains-IsAscending :
    (ing : Ingress) → Pairwise (λ a b. lt_str a b ≡ true) (ingress_domains ing)
ingress_domains-IsAscending ing = rw (ingress_domains-sort ing) (
    Pairwise.imp₂ (lt_str_of_ne) (sort-IsSorted lt_str str_order _) (
      Perm.nodup (Perm.symm (sort-perm lt_str _))
        (add_hosts-IsTracked no_hosts (all_hosts ing) no_hosts-IsTracked).once))
