-- ===== src/Tls/Config/Secured.antt =====
-- The connector that secures a connection.
use salus_rs.Prelude.{
  Bool, ◌≡◌, sym, Option, none, some, Text, Result, ok, >>=-eq-ok, ok-injective, map_err-ok, subst,
}
use salus_rs.Validation.{validate_non_empty_str}
use salus_rs.Tls.{
  TlsArgs, normalize_server_name_override, parse_server_name_override, validate_tls_options,
}
use salus_rs.Tls.Checked.{IsServerName, normalize_server_name_override-IsServerName}
use salus_rs.Tls.Config.{
  TlsLibrary, HttpsConnector, build_http_tls_config, fixed_server_name, build_https_connector,
}
use salus_rs.Tls.Config.Built.{IsAsked, build_client_config_iff}

module _ (server_name : Text → Result Text Text) (webpki : Bool) (lib : TlsLibrary) where
  -- The name that `--server-name` stands for: that of the text, or of the address in its brackets.
  pub record Names (raw : Text) (fixed : Option Text) : Type 0 where
    pub text : Text
    pub name : Text
    pub meant : IsServerName raw text
    pub parsed : server_name text ≡ ok name
    pub is_fixed : fixed ≡ some name

  abbrev pub Fixes : Option Text → Option Text → Type 0
  Fixes none fixed = fixed ≡ none
  Fixes (some raw) fixed = Names raw fixed

  -- The connector that the options ask for.
  pub record Secures (tls : TlsArgs) (connector : HttpsConnector) : Type 0 where
    pub asked : IsAsked lib webpki tls connector.config
    pub names : Fixes tls.server_name connector.fixed_name

  fixed_server_name-Fixes :
      (o : Option Text) {fixed : Option Text}
      → fixed_server_name lib webpki server_name o ≡ ok fixed
      → Fixes o fixed
  unfolding fixed_server_name parse_server_name_override
  fixed_server_name-Fixes none h = sym (ok-injective h)
  fixed_server_name-Fixes (some raw) h =
      let (name, found, h1) = >>=-eq-ok (parse_server_name_override server_name webpki raw) _ h in
      let (_, checked, h2) = >>=-eq-ok (validate_non_empty_str "--server-name" raw) _ found in
      let (text, normalized, h3) = >>=-eq-ok (normalize_server_name_override raw) _ h2 in
      record {
        text = text;
        name = name;
        meant = normalize_server_name_override-IsServerName raw normalized;
        parsed = map_err-ok _ (server_name text) h3;
        is_fixed = sym (ok-injective h1);
      }

  -- The connector verifies servers and shows itself as the options ask, and expects the name of
  -- `--server-name` if one is given.
  pub build_https_connector-Secures :
      (tls : TlsArgs) {connector : HttpsConnector}
      → build_https_connector lib webpki server_name tls ≡ ok connector
      → Secures tls connector
  unfolding build_https_connector build_http_tls_config
  build_https_connector-Secures tls h =
      let (config, built, h1) = >>=-eq-ok (build_http_tls_config lib webpki server_name tls) _ h in
      let (fixed, found, h2) =
        >>=-eq-ok (fixed_server_name lib webpki server_name tls.server_name) _ h1 in
      let (_, checked, configured) =
        >>=-eq-ok (validate_tls_options server_name webpki tls) _ built in
      subst (Secures tls) (ok-injective h2) (record {
        asked = (build_client_config_iff lib webpki tls config).0 configured;
        names = fixed_server_name-Fixes tls.server_name found;
      })
