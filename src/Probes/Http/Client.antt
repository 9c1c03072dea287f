-- ===== src/Probes/Http/Client.antt =====
-- The client for a URL, and where its connector connects to.
pub mod Dialled
use salus_rs.Prelude.{Bool, Option, none, some, if◌then◌else◌, Text, Result, ok, err, ◌>>=◌, ◌>>◌}
use salus_rs.Error.{AppResult}
use salus_rs.Tls.{TlsArgs}
use salus_rs.Tls.Config.{TlsLibrary, HttpsConnector, build_https_connector}

-- `HttpConnector` or `HttpsConnector`.
pub data Connector : Type 0 where
  http_connector : Connector
  https_connector : HttpsConnector → Connector

pub record FixedConnectUriConnector (Uri : Type 0) : Type 0 where
  pub inner : Connector
  pub connect_uri : Uri

-- A call of a connector: which one, and for which URI.
pub record Dial (Uri : Type 0) : Type 0 where
  pub connector : Connector
  pub uri : Uri

pub data UrlHttpClient (Uri : Type 0) : Type 0 where
  plain : FixedConnectUriConnector Uri → UrlHttpClient Uri
  tls : FixedConnectUriConnector Uri → UrlHttpClient Uri

module _ {Uri : Type 0} where
  -- `call` of the service: whatever URI the client asks for, the inner connector is called for the
  -- fixed one.
  unfoldable pub call : FixedConnectUriConnector Uri → Uri → Dial Uri
  call service uri = record { connector = service.inner; uri = service.connect_uri }

  unfoldable pub connector_of : UrlHttpClient Uri → FixedConnectUriConnector Uri
  connector_of (plain service) = service
  connector_of (tls service) = service

  unfoldable pub build_plain_http_client : Uri → UrlHttpClient Uri
  build_plain_http_client connect_uri =
      plain (record { inner = http_connector; connect_uri = connect_uri })

  module _ (server_name : Text → Result Text Text) (webpki : Bool) (lib : TlsLibrary) where
    unfoldable pub build_https_client : TlsArgs → Uri → AppResult (UrlHttpClient Uri)
    build_https_client tls_args connect_uri = do
      https ← build_https_connector lib webpki server_name tls_args
      ok (tls (record { inner = https_connector https; connect_uri = connect_uri }))

    unfoldable pub build_url_http_client : Bool → TlsArgs → Uri → AppResult (UrlHttpClient Uri)
    build_url_http_client uses_tls tls_args connect_uri =
        if uses_tls
        then build_https_client tls_args connect_uri
        else ok (build_plain_http_client connect_uri)
