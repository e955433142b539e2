-- ===== src/Manager/Start.antt =====
-- What the start of cmd/main.go guarantees.
use heliop.Base.{
  String, Bool, true, false, List, [], ◌∷◌, ◌≡◌, ◌⊎◌, refl, ap, arith, if◌then◌else◌, Bool-cases,
  String-cases, inl, inr,
}
use heliop.Base.Action.{>>=-ok, panicked}
use heliop.Base.Result.{Result, ok, err, panic}
use heliop.Cluster.{ClusterClient}
use heliop.Secrets.{Crypto}
use heliop.Controllers.{Libraries, reconcile, reconcile_client}
use heliop.Controllers.Watches.{authelia_setup, client_setup}
use heliop.Manager.{
  Certificate, Flags, default_flags, TlsConfig, TlsOption, disable_http2, tls_opts, given_cert,
  webhook_options, metrics_options, ManagerOptions, manager_options, Parsed, parsed_flags,
  help_wanted, bad_flags, scheme_group_version, registered_types, Runtime, add_types, init,
  must_result, startup, exit_status, run_parsed, run_main, main,
}

-- The options are applied in their order.
abbrev pub configured : List TlsOption → TlsConfig → TlsConfig
configured [] t = t
configured (f ∷ fs) t = configured fs (f t)

-- A server has the certificate of the flags, where they give the path of one.
abbrev pub IsCertificate : Certificate → Certificate → Type 0
IsCertificate given used = (used.path ≡ given.path) × ((given.path ≡ "") ⊎ (used ≡ given))

-- The options of a manager that serves as the flags say: HTTP/1.1 alone on both servers unless
-- HTTP/2 is enabled, the metrics at their address, under authentication and authorization exactly
-- where they are served securely, each server with its own certificate, the probes at theirs, and
-- leader election as it is wanted, under the program's one identity.
pub record IsServing (flags : Flags) (o : ManagerOptions) : Type 0 where
  pub webhook_protos :
      (t : TlsConfig)
      → (configured o.webhook.tls t).next_protos
        ≡ (if flags.enable_http2 then t.next_protos else "http/1.1" ∷ [])
  pub metrics_protos :
      (t : TlsConfig)
      → (configured o.metrics.tls t).next_protos
        ≡ (if flags.enable_http2 then t.next_protos else "http/1.1" ∷ [])
  pub metrics_secure : o.metrics.secure_serving ≡ flags.secure_metrics
  pub metrics_filtered : o.metrics.filtered ≡ o.metrics.secure_serving
  pub metrics_address : o.metrics.bind_address ≡ flags.metrics_addr
  pub metrics_certificate : IsCertificate flags.metrics_cert o.metrics.cert
  pub webhook_certificate : IsCertificate flags.webhook_cert o.webhook.cert
  pub probe_address : o.probe_addr ≡ flags.probe_addr
  pub elects : o.leader_election ≡ flags.enable_leader_election
  pub identity : o.leader_election_id ≡ "4d05d2cf.snosr.se"

given_cert-IsCertificate : (given : Certificate) → IsCertificate given (given_cert given)
unfolding given_cert
given_cert-IsCertificate given = elim (String-cases given.path "") [
  | inl e ↦ rw e (refl, inl refl)
  | inr n ↦ rw n (refl, inr refl)
]

protos-tls_opts :
    (flags : Flags) (t : TlsConfig)
    → (configured (tls_opts flags) t).next_protos
      ≡ (if flags.enable_http2 then t.next_protos else "http/1.1" ∷ [])
unfolding tls_opts disable_http2
protos-tls_opts flags t = elim (Bool-cases flags.enable_http2) [
  | inl e ↦ rw e refl
  | inr e ↦ rw e refl
]

same_if : (b : Bool) → (if b then true else false) ≡ b
same_if true = refl
same_if false = refl

manager_options-IsServing : (flags : Flags) → IsServing flags (manager_options flags)
unfolding manager_options webhook_options metrics_options
manager_options-IsServing flags = record {
  webhook_protos = protos-tls_opts flags;
  metrics_protos = protos-tls_opts flags;
  metrics_secure = refl;
  metrics_filtered = same_if flags.secure_metrics;
  metrics_address = refl;
  metrics_certificate = given_cert-IsCertificate flags.metrics_cert;
  webhook_certificate = given_cert-IsCertificate flags.webhook_cert;
  probe_address = refl;
  elects = refl;
  identity = refl;
}

module _ (c : Crypto) (cc : ClusterClient c.Source) (lib : Libraries) (rt : Runtime c cc) where
  -- The steps of `init` that succeeds.
  pub record IsRegistered (st st' : rt.State) : Type 0 where
    pub with_core_types : rt.State
    pub adds_core_types : rt.add_core_types st ≡ (ok tt, with_core_types)
    pub adds_types :
        rt.add_to_scheme scheme_group_version registered_types with_core_types ≡ (ok tt, st')

  -- The steps of a start that succeeds, each in the state that the one before it leaves.
  pub record IsStarted (flags : Flags) (st st' : rt.State) : Type 0 where
    pub options : ManagerOptions
    pub serving : IsServing flags options
    pub config : rt.Config
    pub configured : rt.State
    pub made : rt.State
    pub with_authelia : rt.State
    pub with_client : rt.State
    pub with_healthz : rt.State
    pub with_readyz : rt.State
    pub gets_config : rt.get_config_or_die st ≡ (ok config, configured)
    pub makes : rt.new_manager config options configured ≡ (ok tt, made)
    pub sets_up_authelia :
        rt.complete (authelia_setup c cc) (reconcile c cc lib) made ≡ (ok tt, with_authelia)
    pub sets_up_client :
        rt.complete (client_setup c cc) (reconcile_client c cc) with_authelia ≡ (ok tt, with_client)
    pub adds_healthz : rt.add_healthz_check "healthz" with_client ≡ (ok tt, with_healthz)
    pub adds_readyz : rt.add_readyz_check "readyz" with_healthz ≡ (ok tt, with_readyz)
    pub starts : rt.start with_readyz ≡ (ok tt, st')

  must_result-ok :
      (r : Result (Unit {0})) (u v : rt.State)
      → ◌≡◌ {A = Result (Unit {0}) × rt.State} (must_result r, u) (ok tt, v)
      → ◌≡◌ {A = Result (Unit {0}) × rt.State} (r, u) (ok tt, v)
  must_result-ok (ok tt) u v e = e
  must_result-ok (err x) u v e = absurd (panicked tt u v e)
  must_result-ok panic u v e = e

  init-IsRegistered : (st st' : rt.State) → init c cc lib rt st ≡ (ok tt, st') → IsRegistered st st'
  unfolding init
  init-IsRegistered st st' e =
      let (_, s1, e1, e2) = >>=-ok _ _ _ _ st e in
      record {
        with_core_types = s1;
        adds_core_types = must_result-ok (rt.add_core_types st).0 (rt.add_core_types st).1 s1 e1;
        adds_types =
            must_result-ok (add_types c cc lib rt s1).0 (add_types c cc lib rt s1).1 st' e2;
      }

  startup-IsStarted :
      (flags : Flags) (st st' : rt.State)
      → startup c cc lib rt flags st ≡ (ok tt, st')
      → IsStarted flags st st'
  unfolding startup
  startup-IsStarted flags st st' e =
      let (config, s0, e0, r0) = >>=-ok _ _ _ _ st e in
      let (_, s1, e1, r1) = >>=-ok _ _ _ _ s0 r0 in
      let (_, s2, e2, r2) = >>=-ok _ _ _ _ s1 r1 in
      let (_, s3, e3, r3) = >>=-ok _ _ _ _ s2 r2 in
      let (_, s4, e4, r4) = >>=-ok _ _ _ _ s3 r3 in
      let (_, s5, e5, e6) = >>=-ok _ _ _ _ s4 r4 in
      record {
        options = manager_options flags;
        serving = manager_options-IsServing flags;
        config = config;
        configured = s0;
        made = s1;
        with_authelia = s2;
        with_client = s3;
        with_healthz = s4;
        with_readyz = s5;
        gets_config = e0;
        makes = e1;
        sets_up_authelia = e2;
        sets_up_client = e3;
        adds_healthz = e4;
        adds_readyz = e5;
        starts = e6;
      }

  succeeded : (r : Result (Unit {0})) → exit_status r ≡ 0 → r ≡ ok tt
  succeeded (ok tt) e = refl
  succeeded (err x) e = absurd (omega (arith, e))
  succeeded panic e = absurd (omega (arith, e))

  -- What a process with status 0 has done after `init`: it was asked for its usage, or it has started.
  pub data IsFinished (args : List String) (st st' : rt.State) : Type 0 where
    printed_usage : rt.parse default_flags args ≡ help_wanted → st' ≡ st → IsFinished args st st'
    served :
        (flags : Flags)
        → rt.parse default_flags args ≡ parsed_flags flags
        → IsStarted flags st st'
        → IsFinished args st st'

  run_parsed-IsFinished :
      (args : List String) (parsed : Parsed) (st : rt.State)
      → rt.parse default_flags args ≡ parsed
      → (run_parsed c cc lib rt parsed st).0 ≡ 0
      → IsFinished args st (run_parsed c cc lib rt parsed st).1
  unfolding run_parsed
  run_parsed-IsFinished args (parsed_flags flags) st given e =
      let (r, st') = startup c cc lib rt flags st in
      served flags given (startup-IsStarted flags st st' (ap (λ q. (q, st')) (succeeded r e)))
  run_parsed-IsFinished args help_wanted st given e = printed_usage given refl
  run_parsed-IsFinished args bad_flags st given e = absurd (omega (arith, e))

  run_main-IsFinished :
      (args : List String) (r : Result (Unit {0})) (st : rt.State)
      → (run_main c cc lib rt args r st).0 ≡ 0
      → (r ≡ ok tt) × IsFinished args st (run_main c cc lib rt args r st).1
  unfolding run_main
  run_main-IsFinished args (ok tt) st e =
      (refl, run_parsed-IsFinished args (rt.parse default_flags args) st refl e)
  run_main-IsFinished args (err x) st e = absurd (omega (arith, e))
  run_main-IsFinished args panic st e = absurd (omega (arith, e))

  -- A process that ends with status 0 has registered Kubernetes' own types and the four of
  -- api/v1alpha1. Then it was asked for its usage and has done nothing else; or the arguments were
  -- parsed into flags, and it has made a manager that serves as these flags say, has set up both
  -- controllers, each with its watches and its Reconcile, and both health checks with it, and has
  -- started it, each step in the state that the one before it left.
  pub main-IsStarted :
      (args : List String) (st : rt.State)
      → (main c cc lib rt args st).0 ≡ 0
      → (registered : rt.State) × IsRegistered st registered
        × IsFinished args registered (main c cc lib rt args st).1
  unfolding main
  main-IsStarted args st e =
      let (r, st') = init c cc lib rt st in
      let (fine, finished) = run_main-IsFinished args r st' e in
      (st', init-IsRegistered st st' (ap (λ q. (q, st')) fine), finished)
