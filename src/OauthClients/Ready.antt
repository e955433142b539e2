-- ===== src/OauthClients/Ready.antt =====
-- Which clients collectClients of internal/controller/authelia_controller.go gives for rendering.
use mathlib.Core.List.{mem-cons_of_mem, Mem-prop, not-mem-nil, mem-cons_self, eq-or-mem_of_mem-cons}
use mathlib.Core.Path.{subst}
use mathlib.Core.Logic.Or
use heliop.Base.{
  String, true, false, List, [], ◌∷◌, Mem, ◌≡◌, refl, sym, ap, ◌∙◌, ◌==◌, Bool-cases, inl, inr,
}
use heliop.Base.Dict.{Dict}
use heliop.Base.Result.{
  Result, ok, err, panic, Ensures, Ensures-of_eq, Ensures-eq, Ensures->>=, ◌>>=◌,
}
use heliop.Api.{Authelia, AutheliaOauthClient}
use heliop.Render.{OidcClient}
use heliop.OauthClients.{
  Listing, client_targets, client_secret_digest, client_id_of, with_client, with_digest, listed,
  collect_clients,
}

-- A client as it is rendered: with its ID resolved, and its digest.
abbrev pub rendered_client : AutheliaOauthClient → String → OidcClient
rendered_client client digest = record {
  spec = record client.spec { client_id = client_id_of client };
  secret_digest = digest;
}

with_digest-keeps :
    (client : AutheliaOauthClient) (l : Listing) (d : String) (o : OidcClient)
    → Mem o l.clients
    → Mem o (with_digest client l d).clients
unfolding with_digest
with_digest-keeps client l d o m = elim (Bool-cases (d == "")) [
  | inl e ↦ rw e m
  | inr e ↦ rw e (mem-cons_of_mem _ m)
]

module _ (get : String → String → Result (Dict String)) (a : Authelia) where
  listed_public :
      (client : AutheliaOauthClient) (rest : Result Listing)
      → client_targets client a ≡ true
      → client.spec.public ≡ true
      → (listed get a client rest ≡ (rest >>= λ l. ok (with_client "" client l)))
  unfolding listed
  listed_public client rest t p = rw (t, p)

  listed_confidential :
      (client : AutheliaOauthClient) (rest : Result Listing)
      → client_targets client a ≡ true
      → client.spec.public ≡ false
      → (listed get a client rest
          ≡ (client_secret_digest get client >>= λ d. rest >>= λ l. ok (with_digest client l d)))
  unfolding listed
  listed_confidential client rest t p = rw (t, p)

  listed_other :
      (client : AutheliaOauthClient) (rest : Result Listing)
      → client_targets client a ≡ false
      → listed get a client rest ≡ rest
  unfolding listed
  listed_other client rest t = rw t

  module _ (o : OidcClient) where
    abbrev Lists : Result Listing → Type 0
    Lists = Ensures (λ l. Mem o l.clients)

    Lists-IsProp : (r : Result Listing) → IsProp (Lists r)
    Lists-IsProp (ok l) = Mem-prop
    Lists-IsProp (err e) = λ x y. refl
    Lists-IsProp panic = λ x y. refl

    -- What is listed stays.
    listed-keeps :
        (client : AutheliaOauthClient) (rest : Result Listing)
        → Lists rest
        → Lists (listed get a client rest)
    listed-keeps client rest h = elim (Bool-cases (client_targets client a)) [
      | inl t ↦ elim (Bool-cases client.spec.public) [
        | inl p ↦ subst Lists (sym (listed_public client rest t p)) (
            Ensures->>= (λ l. Mem o l.clients) (λ l. Mem o l.clients) rest _ h
              (λ l m. mem-cons_of_mem _ m))
        | inr p ↦ subst Lists (sym (listed_confidential client rest t p)) (
            Ensures->>= (λ _. Unit {0}) (λ l. Mem o l.clients) (client_secret_digest get client) _
              (Ensures-of_eq _ _ (λ _ _. tt))
              (λ d _.
                Ensures->>= (λ l. Mem o l.clients) (λ l. Mem o l.clients) rest _ h
                  (λ l m. with_digest-keeps client l d o m)))
      ]
      | inr t ↦ subst Lists (sym (listed_other client rest t)) h
    ]

  module _ (client : AutheliaOauthClient) (d : String) (targets : client_targets client a ≡ true)
      (confidential : client.spec.public ≡ false) (digest : client_secret_digest get client ≡ ok d)
      (given : (d == "") ≡ false) where
    with_digest-Mem :
        (l : Listing) → Mem (rendered_client client d) (with_digest client l d).clients
    unfolding with_digest
    with_digest-Mem l = rw given mem-cons_self

    listed-Mem :
        (rest : Result Listing) → Lists (rendered_client client d) (listed get a client rest)
    listed-Mem rest =
        subst (Lists (rendered_client client d))
          (sym (
            listed_confidential client rest targets confidential
            ∙ ap (λ r. r >>= λ e. rest >>= λ l. ok (with_digest client l e)) digest))
          (Ensures->>= (λ _. Unit {0}) (λ l. Mem (rendered_client client d) l.clients) rest _
            (Ensures-of_eq _ _ (λ _ _. tt)) (λ l _. with_digest-Mem l))

    collect_clients-Lists :
        (clients : List AutheliaOauthClient)
        → Mem client clients
        → Lists (rendered_client client d) (collect_clients get a clients)
    unfolding collect_clients
    collect_clients-Lists [] m = absurd (not-mem-nil m)
    collect_clients-Lists (c ∷ clients) m =
        let rest = collect_clients get a clients in
        Or.elim (Lists-IsProp (rendered_client client d) (listed get a c rest))
          (eq-or-mem_of_mem-cons m)
          (λ e.
            subst (λ x. Lists (rendered_client client d) (listed get a x rest)) e (listed-Mem rest))
          (λ later.
            listed-keeps (rendered_client client d) c rest (collect_clients-Lists clients later))

    -- A confidential client that targets the Authelia, and of which the digest is read, is among the
    -- clients that are collected, with that digest.
    pub collect_clients-Mem :
        (clients : List AutheliaOauthClient) (l : Listing)
        → Mem client clients
        → collect_clients get a clients ≡ ok l
        → Mem (rendered_client client d) l.clients
    collect_clients-Mem clients l m e =
        Ensures-eq (λ k. Mem (rendered_client client d) k.clients) _
          (collect_clients-Lists clients m) e
