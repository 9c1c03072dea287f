-- ===== src/Probes/Http/Client/Dialled.antt =====
-- What the client of a URL connects to.
use salus_rs.Prelude.{◌≡◌, sym, ap, Bool, true, false, Text, Result, ok, >>=-eq-ok, ok-injective}
use salus_rs.Tls.{TlsArgs}
use salus_rs.Tls.Config.{TlsLibrary, HttpsConnector, build_https_connector}
use salus_rs.Tls.Config.Secured.{Secures, build_https_connector-Secures}
use salus_rs.Probes.Http.Client.{
  Connector, http_connector, https_connector, UrlHttpClient, call, connector_of,
  build_plain_http_client, build_https_client, build_url_http_client,
}

module _ (server_name : Text → Result Text Text) (webpki : Bool) (lib : TlsLibrary) where
  -- A plain connector, or one that is secured as the options ask.
  abbrev pub Connects : Bool → TlsArgs → Connector → Type 0
  Connects false tls_args connector = connector ≡ http_connector
  Connects true tls_args connector =
      (https : HttpsConnector) × (connector ≡ https_connector https)
      × Secures server_name webpki lib tls_args https

  -- Whatever URI the client of a URL asks its connector for, the connection is to the URI that was fixed.
  -- Without TLS it is plain. With TLS it verifies the server and shows itself as the options ask, and
  -- the server has to show the name of `--server-name` if one is given.
  pub build_url_http_client-Connects :
      {Uri : Type 0} (tls_args : TlsArgs) (connect_uri : Uri) (uses_tls : Bool)
      {client : UrlHttpClient Uri}
      → build_url_http_client server_name webpki lib uses_tls tls_args connect_uri ≡ ok client
      → (uri : Uri)
      → ((call (connector_of client) uri).uri ≡ connect_uri)
        × Connects uses_tls tls_args (call (connector_of client) uri).connector
  unfolding build_url_http_client build_plain_http_client build_https_client call connector_of
  build_url_http_client-Connects tls_args connect_uri false h uri =
      let made = sym (ok-injective h) in
      (ap (λ c. (connector_of c).connect_uri) made, ap (λ c. (connector_of c).inner) made)
  build_url_http_client-Connects tls_args connect_uri true h uri =
      let (https, built, h1) =
        >>=-eq-ok (build_https_connector lib webpki server_name tls_args) _ h in
      let made = sym (ok-injective h1) in
      (
        ap (λ c. (connector_of c).connect_uri) made,
        (
          https,
          ap (λ c. (connector_of c).inner) made,
          build_https_connector-Secures server_name webpki lib tls_args built,
        ),
      )
