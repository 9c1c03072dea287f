-- ===== src/Tests/Certificates.antt =====
-- Tests of the configuration of tls.rs, and of the connectors of probes/http.rs.
use salus_rs.Prelude.{◌≡◌, ◌↔◌, refl, true, false, some, [], ◌∷◌, Text, utf8, codes, ok, is_ipv6}
use salus_rs.Validation.{validate_non_empty_str, validate_non_empty_path}
use salus_rs.Tls.{
  TlsArgs, validate_client_identity_args, validate_trust_args, validate_tls_file_args,
  validate_optional_path, validate_tls_trust_available, normalize_server_name_override,
  parse_server_name_override, check_server_name, validate_tls_options,
}
use salus_rs.Tls.Config.{
  TlsLibrary, ClientConfig, root_certificates, collect, open_regular_pem_file, read_certs, read_key,
  add_roots, load_root_store, load_identity, load_client_identity, with_identity,
  build_client_config, build_http_tls_config, fixed_server_name, build_https_connector,
}
use salus_rs.Tls.Config.Built.{IsAsked, build_client_config_iff}
use salus_rs.Probes.Http.Client.{
  https_connector, UrlHttpClient, call, connector_of, build_https_client, build_url_http_client,
}
use salus_rs.Probes.Http.Client as Client
use salus_rs.Probes.Http.Client.Dialled.{Connects, build_url_http_client-Connects}

-- Every file holds one certificate and one key.
abbrev pub tls_library : TlsLibrary
tls_library = record {
  is_file = λ file. ok true;
  open_pem =
      λ file. ok (record { certs = ok (codes "cert") ∷ []; private_key = ok (some (codes "key")) });
  bundled_roots = codes "root" ∷ [];
  add_root = λ cert. ok tt;
  client_auth = λ certs key. ok tt;
}

abbrev tls_options : TlsArgs
tls_options = record {
  ca = some (utf8 (codes "ca.pem"));
  cert = some (utf8 (codes "cert.pem"));
  key = some (utf8 (codes "key.pem"));
  server_name = some (codes "[::1]");
  insecure_skip_verify = false;
}

abbrev config : ClientConfig
config = record {
  verifier = root_certificates (codes "root" ∷ codes "cert" ∷ []);
  identity = some (codes "cert" ∷ [], codes "key");
}

builds : build_client_config tls_library true tls_options ≡ ok config
unfolding build_client_config load_client_identity load_identity open_regular_pem_file read_certs
    collect read_key load_root_store add_roots with_identity
builds = refl

build_client_config_iff_example :
    (build_client_config tls_library true tls_options ≡ ok config)
    ↔ IsAsked tls_library true tls_options config
build_client_config_iff_example = build_client_config_iff tls_library true tls_options config

abbrev client : UrlHttpClient Text
client = Client.tls (record {
  inner = https_connector (record { config = config; fixed_name = some (codes "::1") });
  connect_uri = codes "https://h/";
})

client_is_built :
    build_url_http_client (λ text. ok text) true tls_library true tls_options (codes "https://h/")
    ≡ ok client
unfolding build_url_http_client build_https_client build_https_connector build_http_tls_config
    fixed_server_name build_client_config load_client_identity load_identity open_regular_pem_file
    read_certs collect read_key load_root_store add_roots with_identity validate_tls_options
    validate_client_identity_args validate_trust_args validate_tls_file_args validate_optional_path
    validate_tls_trust_available normalize_server_name_override parse_server_name_override
    check_server_name validate_non_empty_str validate_non_empty_path is_ipv6
client_is_built = refl

build_url_http_client-Connects_example :
    ((call (connector_of client) (codes "https://other/")).uri ≡ codes "https://h/")
    × Connects
        (λ text. ok text)
        true
        tls_library
        true
        tls_options
        (call (connector_of client) (codes "https://other/")).connector
build_url_http_client-Connects_example =
    build_url_http_client-Connects (λ text. ok text) true tls_library tls_options
      (codes "https://h/") true client_is_built (codes "https://other/")
