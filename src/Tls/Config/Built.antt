-- ===== src/Tls/Config/Built.antt =====
-- Which configurations are built.
use salus_rs.Prelude.{
  ◌≡◌, refl, sym, ap, ◌↔◌, Bool, true, false, Option, none, some, List, arith, Bytes, OsStr, ok,
  ok-injective, ◌>>=◌, >>=-eq-ok, map_err, map_err-ok, if◌then◌else◌, subst,
}
use salus_rs.Error.{AppResult}
use salus_rs.Tls.{TlsArgs}
use salus_rs.Tls.Config.{
  TlsLibrary, Verifier, insecure_verifier, root_certificates, ClientConfig, load_root_store,
  load_identity, load_client_identity, with_identity, build_client_config,
}
use salus_rs.Tls.Config.Loaded.{Trusted, Identified, load_root_store_iff, load_identity_iff}

same_config :
    (config : ClientConfig) (verifier : Verifier) (identity : Option (List Bytes × Bytes))
    → config.verifier ≡ verifier
    → config.identity ≡ identity
    → config ≡ record { verifier = verifier; identity = identity }
same_config config verifier identity e e' = ground (arith, e, e')

module _ (lib : TlsLibrary) (webpki : Bool) where
  -- The builder takes the identity, if there is one.
  abbrev pub Taken : Option (List Bytes × Bytes) → Type 0
  Taken none = Unit
  Taken (some (certs, key)) = lib.client_auth certs key ≡ ok tt

  with_identity_iff :
      (verifier : Verifier) (identity : Option (List Bytes × Bytes)) (config : ClientConfig)
      → (with_identity lib webpki verifier identity ≡ ok config)
        ↔ (Taken identity × (config ≡ record { verifier = verifier; identity = identity }))
  unfolding with_identity
  with_identity_iff verifier none config = (λ h. (tt, sym (ok-injective h)), λ h. ap ok (sym h.1))
  with_identity_iff verifier (some (certs, key)) config = (
    λ h.
        let (_, taken, h1) = >>=-eq-ok (map_err _ (lib.client_auth certs key)) _ h in
        (map_err-ok _ (lib.client_auth certs key) taken, sym (ok-injective h1)),
    λ h. rw h.0 (ap ok (sym h.1)),
  )

  -- How servers are verified: not at all, or by roots.
  abbrev pub Verifies : Bool → Option OsStr → Verifier → Type 0
  Verifies true ca verifier = verifier ≡ insecure_verifier
  Verifies false ca verifier =
      (roots : List Bytes) × Trusted lib webpki ca roots × (verifier ≡ root_certificates roots)

  -- The configuration that the options ask for.
  pub record IsAsked (tls : TlsArgs) (config : ClientConfig) : Type 0 where
    pub identity : Identified lib webpki tls.cert tls.key config.identity
    pub taken : Taken config.identity
    pub verifies : Verifies tls.insecure_skip_verify tls.ca config.verifier

  -- The part of the builder that verification decides.
  choose_verifier : Bool → Option OsStr → Option (List Bytes × Bytes) → AppResult ClientConfig
  choose_verifier insecure ca identity =
      if insecure then with_identity lib webpki insecure_verifier identity else (do
        roots ← load_root_store lib webpki ca
        with_identity lib webpki (root_certificates roots) identity)

  choose_verifier_iff :
      (insecure : Bool) (ca : Option OsStr) (identity : Option (List Bytes × Bytes))
      (config : ClientConfig)
      → (choose_verifier insecure ca identity ≡ ok config)
        ↔ ((config.identity ≡ identity) × Taken identity × Verifies insecure ca config.verifier)
  unfolding choose_verifier
  choose_verifier_iff true ca identity config = (
    λ h.
        let (taken, e) = (with_identity_iff insecure_verifier identity config).0 h in
        (ap (λ c. c.identity) e, taken, ap (λ c. c.verifier) e),
    λ h.
        (with_identity_iff insecure_verifier identity config).1
          (h.1, same_config config insecure_verifier identity h.2 h.0),
  )
  choose_verifier_iff false ca identity config = (
    λ h.
        let (roots, loaded, h1) = >>=-eq-ok (load_root_store lib webpki ca) _ h in
        let (taken, e) = (with_identity_iff (root_certificates roots) identity config).0 h1 in
        (
          ap (λ c. c.identity) e,
          taken,
          (roots, (load_root_store_iff lib webpki ca roots).0 loaded, ap (λ c. c.verifier) e),
        ),
    λ h.
        let (same, taken, (roots, trusted, by_roots)) = h in
        rw ((load_root_store_iff lib webpki ca roots).1 trusted) (
          (with_identity_iff (root_certificates roots) identity config).1
            (taken, same_config config (root_certificates roots) identity by_roots same)),
  )

  -- A configuration is built exactly when it is the one that the options ask for: it verifies servers by
  -- the bundled roots and by all certificates of the CA file, of which there are some, unless verification is
  -- switched off; and it shows the certificates of the one file with the key of the other exactly when
  -- both are given. The files are regular and are read without an error, and the library takes each root and
  -- the identity.
  pub build_client_config_iff :
      (tls : TlsArgs) (config : ClientConfig)
      → (build_client_config lib webpki tls ≡ ok config) ↔ IsAsked tls config
  unfolding build_client_config load_client_identity choose_verifier
  build_client_config_iff tls config = (
    λ h.
        let (identity, loaded, h1) = >>=-eq-ok (load_identity lib webpki tls.cert tls.key) _ h in
        let (same, taken, verifies) =
          (choose_verifier_iff tls.insecure_skip_verify tls.ca identity config).0 h1 in
        record {
          identity =
              subst (Identified lib webpki tls.cert tls.key) (sym same)
                ((load_identity_iff lib webpki tls.cert tls.key identity).0 loaded);
          taken = subst Taken (sym same) taken;
          verifies = verifies;
        },
    λ a. rw ((load_identity_iff lib webpki tls.cert tls.key config.identity).1 a.identity) (
        (choose_verifier_iff tls.insecure_skip_verify tls.ca config.identity config).1
          (refl, a.taken, a.verifies)),
  )
