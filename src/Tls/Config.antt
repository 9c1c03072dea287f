-- ===== src/Tls/Config.antt =====
-- The configuration of a TLS client: what it trusts, and how it identifies itself.
pub mod Read
pub mod Loaded
pub mod Built
pub mod Secured
use salus_rs.Prelude.{
  Bool, true, false, not, Option, none, some, List, [], ◌∷◌, ◌++◌, if◌then◌else◌, is_nil, String,
  Text, Bytes, OsStr, Result, ok, err, ◌>>=◌, ◌>>◌, map_err, ok_or, refuse_if,
}
use salus_rs.Error.{AppResult, invalid_config, lit, display}
use salus_rs.Diagnostic.{path}
use salus_rs.Tls.{TlsArgs, validate_tls_options, parse_server_name_override}

-- What rustls_pemfile reads of an open file. A certificate and a key are their bytes.
pub record PemFile : Type 0 where
  pub certs : List (Result Text Bytes)
  pub private_key : Result Text (Option Bytes)

-- What the file system and rustls answer: the metadata and the opening of a path, the bundled roots,
-- whether the store takes a root, and whether the builder takes a client's certificates and key.
pub record TlsLibrary : Type 0 where
  pub is_file : OsStr → Result Text Bool
  pub open_pem : OsStr → Result Text PemFile
  pub bundled_roots : List Bytes
  pub add_root : Bytes → Result Text Unit
  pub client_auth : List Bytes → Bytes → Result Text Unit

-- `InsecureVerifier` takes every server's certificate, the roots' verifier is that of rustls.
pub data Verifier : Type 0 where
  insecure_verifier : Verifier
  root_certificates : List Bytes → Verifier

pub record ClientConfig : Type 0 where
  pub verifier : Verifier
  pub identity : Option (List Bytes × Bytes)

-- `HttpsConnector`: its configuration, and the name that it expects of every server if one is fixed.
pub record HttpsConnector : Type 0 where
  pub config : ClientConfig
  pub fixed_name : Option Text

-- `collect` into a `Result`.
unfoldable pub collect : List (Result Text Bytes) → Result Text (List Bytes)
collect [] = ok []
collect (r ∷ rs) = do cert ← r; certs ← collect rs; ok (cert ∷ certs)

module _ (lib : TlsLibrary) (webpki : Bool) where
  unfoldable pub open_regular_pem_file : OsStr → String → AppResult PemFile
  open_regular_pem_file file label = do
    regular ←
        map_err
          (λ error. invalid_config (
            lit "failed to inspect "
            ∷ lit label
            ∷ lit " "
            ∷ path file
            ∷ lit ": "
            ∷ display error
            ∷ []))
          (lib.is_file file)
    refuse_if (not regular)
        (invalid_config (lit label ∷ lit " " ∷ path file ∷ lit " is not a regular file" ∷ []))
    map_err
        (λ error.
          invalid_config (
            lit "failed to open "
            ∷ lit label
            ∷ lit " "
            ∷ path file
            ∷ lit ": "
            ∷ display error
            ∷ []))
        (lib.open_pem file)

  -- The certificates of a file, of which there must be some.
  unfoldable pub read_certs : OsStr → String → PemFile → AppResult (List Bytes)
  read_certs file label pem = do
    certs ←
        map_err
          (λ error. invalid_config (
            lit "failed to parse "
            ∷ lit label
            ∷ lit " "
            ∷ path file
            ∷ lit ": "
            ∷ display error
            ∷ []))
          (collect pem.certs)
    refuse_if (is_nil certs) (
        invalid_config
          (lit label ∷ lit " " ∷ path file ∷ lit " does not contain any certificates" ∷ []))
    ok certs

  -- The loop that adds the certificates of the CA file.
  unfoldable pub add_roots : OsStr → List Bytes → List Bytes → AppResult (List Bytes)
  add_roots file [] roots = ok roots
  add_roots file (cert ∷ certs) roots = do
    map_err
        (λ error.
          invalid_config
            (lit "invalid CA certificate in " ∷ path file ∷ lit ": " ∷ display error ∷ []))
        (lib.add_root cert)
    add_roots file certs (roots ++ (cert ∷ []))

  abbrev pub first_roots : List Bytes
  first_roots = if webpki then lib.bundled_roots else []

  unfoldable pub load_root_store : Option OsStr → AppResult (List Bytes)
  load_root_store none = ok first_roots
  load_root_store (some file) = do
    pem ← open_regular_pem_file file "CA file"
    certs ← read_certs file "CA file" pem
    add_roots file certs first_roots

  unfoldable pub read_key : OsStr → PemFile → AppResult Bytes
  read_key file pem = do
    key ←
        map_err
          (λ error.
            invalid_config
              (lit "failed to parse client key " ∷ path file ∷ lit ": " ∷ display error ∷ []))
          pem.private_key
    ok_or key (
        invalid_config
          (lit "client key " ∷ path file ∷ lit " does not contain a supported private key" ∷ []))

  -- The match on `--cert` and `--key`.
  unfoldable pub load_identity :
      Option OsStr → Option OsStr → AppResult (Option (List Bytes × Bytes))
  load_identity none none = ok none
  load_identity (some cert) none =
      err (invalid_config (lit "--cert and --key must be provided together" ∷ []))
  load_identity none (some key) =
      err (invalid_config (lit "--cert and --key must be provided together" ∷ []))
  load_identity (some cert) (some key) = do
    cert_pem ← open_regular_pem_file cert "client certificate"
    certs ← read_certs cert "client certificate" cert_pem
    key_pem ← open_regular_pem_file key "client key"
    private_key ← read_key key key_pem
    ok (some (certs, private_key))

  unfoldable pub load_client_identity : TlsArgs → AppResult (Option (List Bytes × Bytes))
  load_client_identity tls = load_identity tls.cert tls.key

  -- `with_client_auth_cert` or `with_no_client_auth`.
  unfoldable pub with_identity : Verifier → Option (List Bytes × Bytes) → AppResult ClientConfig
  with_identity verifier none = ok (record { verifier = verifier; identity = none })
  with_identity verifier (some (certs, key)) = do
    map_err
        (λ error. invalid_config (lit "invalid client certificate or key: " ∷ display error ∷ []))
        (lib.client_auth certs key)
    ok (record { verifier = verifier; identity = some (certs, key) })

  unfoldable pub build_client_config : TlsArgs → AppResult ClientConfig
  build_client_config tls = do
    identity ← load_client_identity tls
    (if tls.insecure_skip_verify
        then with_identity insecure_verifier identity
        else (do roots ← load_root_store tls.ca; with_identity (root_certificates roots) identity))

  -- `server_name` is the parser of rustls.
  unfoldable pub build_http_tls_config :
      (Text → Result Text Text) → TlsArgs → AppResult ClientConfig
  build_http_tls_config server_name tls = do
    validate_tls_options server_name webpki tls
    build_client_config tls

  -- The name that replaces the host's, for the connectors' `FixedServerNameResolver`.
  unfoldable pub fixed_server_name :
      (Text → Result Text Text) → Option Text → AppResult (Option Text)
  fixed_server_name server_name none = ok none
  fixed_server_name server_name (some raw) = do
    name ← parse_server_name_override server_name webpki raw
    ok (some name)

  -- `HttpsConnectorBuilder`, as both clients use it.
  unfoldable pub build_https_connector :
      (Text → Result Text Text) → TlsArgs → AppResult HttpsConnector
  build_https_connector server_name tls = do
    config ← build_http_tls_config server_name tls
    fixed ← fixed_server_name server_name tls.server_name
    ok (record { config = config; fixed_name = fixed })
