-- ===== src/Tls/Config/Loaded.antt =====
-- Which roots and which identity are loaded.
use salus_rs.Prelude.{
  ◌≡◌, refl, sym, ap, ◌∙◌, ◌↔◌, Bool, Option, none, some, List, ◌++◌, arith, All, Bytes, OsStr, ok,
  ok-injective, >>=-eq-ok, map_err, map_err-ok,
}
use salus_rs.Tls.Config.{
  PemFile, TlsLibrary, open_regular_pem_file, read_certs, first_roots, load_root_store,
  load_identity, read_key,
}
use salus_rs.Tls.Config.Read.{Opens, Brings, open_iff, certs_iff, add_roots_iff}

module _ (lib : TlsLibrary) (webpki : Bool) where
  -- The roots of a CA file, behind the bundled ones.
  pub record Roots (file : OsStr) (roots : List Bytes) : Type 0 where
    pub pem : PemFile
    pub certs : List Bytes
    pub opens : Opens lib webpki file pem
    pub brings : Brings lib webpki pem certs
    pub taken : All (λ cert. lib.add_root cert ≡ ok tt) certs
    pub joined : roots ≡ first_roots lib webpki ++ certs

  -- What is trusted: the bundled roots, and those of the CA file if one is given.
  abbrev pub Trusted : Option OsStr → List Bytes → Type 0
  Trusted none roots = roots ≡ first_roots lib webpki
  Trusted (some file) roots = Roots file roots

  pub load_root_store_iff :
      (ca : Option OsStr) (roots : List Bytes)
      → (load_root_store lib webpki ca ≡ ok roots) ↔ Trusted ca roots
  unfolding load_root_store
  load_root_store_iff none roots = (λ h. sym (ok-injective h), λ h. ap ok (sym h))
  load_root_store_iff (some file) roots = (
    λ h.
        let (pem, opened, h1) = >>=-eq-ok (open_regular_pem_file lib webpki file "CA file") _ h in
        let (certs, read, h2) = >>=-eq-ok (read_certs lib webpki file "CA file" pem) _ h1 in
        let added = (add_roots_iff lib webpki file certs (first_roots lib webpki) roots).0 h2 in
        record {
          pem = pem;
          certs = certs;
          opens = (open_iff lib webpki file "CA file" pem).0 opened;
          brings = (certs_iff lib webpki file "CA file" pem certs).0 read;
          taken = added.0;
          joined = added.1;
        },
    λ r.
        rw
          (
            (open_iff lib webpki file "CA file" r.pem).1 r.opens,
            (certs_iff lib webpki file "CA file" r.pem r.certs).1 r.brings,
            load_root_store,
          )
          ((add_roots_iff lib webpki file r.certs (first_roots lib webpki) roots).1
            (r.taken, r.joined)),
  )

  -- The certificates of the one file and the key of the other.
  pub record Identity (cert key : OsStr) (identity : Option (List Bytes × Bytes)) : Type 0 where
    pub cert_pem : PemFile
    pub certs : List Bytes
    pub key_pem : PemFile
    pub private_key : Bytes
    pub opens_cert : Opens lib webpki cert cert_pem
    pub brings : Brings lib webpki cert_pem certs
    pub opens_key : Opens lib webpki key key_pem
    pub has_key : key_pem.private_key ≡ ok (some private_key)
    pub shown : identity ≡ some (certs, private_key)

  abbrev pub Identified : Option OsStr → Option OsStr → Option (List Bytes × Bytes) → Type 0
  Identified none none identity = identity ≡ none
  Identified (some cert) none identity = ⊥
  Identified none (some key) identity = ⊥
  Identified (some cert) (some key) identity = Identity cert key identity

  key-ok :
      (file : OsStr) (pem : PemFile) {key : Bytes}
      → read_key lib webpki file pem ≡ ok key
      → pem.private_key ≡ ok (some key)
  unfolding read_key
  key-ok file pem {key} h =
      let (found, parsed, h1) = >>=-eq-ok (map_err _ pem.private_key) _ h in
      let same : found ≡ some key = ground (arith, h1) in
      map_err-ok _ pem.private_key parsed ∙ ap ok same

  ok-key :
      (file : OsStr) (pem : PemFile) {key : Bytes}
      → pem.private_key ≡ ok (some key)
      → read_key lib webpki file pem ≡ ok key
  unfolding read_key
  ok-key file pem h = rw (h, read_key) refl

  pub load_identity_iff :
      (cert key : Option OsStr) (identity : Option (List Bytes × Bytes))
      → (load_identity lib webpki cert key ≡ ok identity) ↔ Identified cert key identity
  unfolding load_identity
  load_identity_iff none none identity = (λ h. sym (ok-injective h), λ h. ap ok (sym h))
  load_identity_iff (some cert) none identity = (λ h. cc h, λ h. absurd h)
  load_identity_iff none (some key) identity = (λ h. cc h, λ h. absurd h)
  load_identity_iff (some cert) (some key) identity = (
    λ h.
        let (cert_pem, cert_opened, h1) =
          >>=-eq-ok (open_regular_pem_file lib webpki cert "client certificate") _ h in
        let (certs, read, h2) =
          >>=-eq-ok (read_certs lib webpki cert "client certificate" cert_pem) _ h1 in
        let (key_pem, key_opened, h3) =
          >>=-eq-ok (open_regular_pem_file lib webpki key "client key") _ h2 in
        let (private_key, found, h4) = >>=-eq-ok (read_key lib webpki key key_pem) _ h3 in
        record {
          cert_pem = cert_pem;
          certs = certs;
          key_pem = key_pem;
          private_key = private_key;
          opens_cert = (open_iff lib webpki cert "client certificate" cert_pem).0 cert_opened;
          brings = (certs_iff lib webpki cert "client certificate" cert_pem certs).0 read;
          opens_key = (open_iff lib webpki key "client key" key_pem).0 key_opened;
          has_key = key-ok key key_pem found;
          shown = sym (ok-injective h4);
        },
    λ i.
        let found : read_key lib webpki key i.key_pem ≡ ok i.private_key =
          ok-key key i.key_pem i.has_key in
        rw
          (
            (open_iff lib webpki cert "client certificate" i.cert_pem).1 i.opens_cert,
            (certs_iff lib webpki cert "client certificate" i.cert_pem i.certs).1 i.brings,
            (open_iff lib webpki key "client key" i.key_pem).1 i.opens_key,
            found,
            i.shown,
            load_identity,
          )
          refl,
  )
