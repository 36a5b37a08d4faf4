-- ===== src/Tls.antt =====
-- src/tls.rs: the server's certificate and key, the client of the upstreams, and the verifier of the
-- upstreams that are not verified. The crates `rustls`, `rustls_pemfile` and `hyper_rustls` and the
-- file system are parameters.
pub mod Loaded
use llm_conduit.Prelude.{
  ℕ, List, [], ◌∷◌, ◌++◌, Option, none, some, Bool, true, false, Result, ok, err, ◌>>=◌, ◌>>◌,
  if◌then◌else◌, is_empty, map_err, ok_or, unwrap_or,
}
use llm_conduit.Prelude.Text.{Text, Bytes, codes}
use llm_conduit.Errors.{StartupError}

-- `collect::<Result<Vec<_>, _>>`
unfoldable pub collect {ℓ κ} : {E : Type ℓ} {A : Type κ} → List (Result E A) → Result E (List A)
collect [] = ok []
collect (r ∷ rs) = do a ← r; more ← collect rs; ok (a ∷ more)

-- What is read from PEM files, and the configuration that is built from it.
pub record Pem : Type 1 where
  pub Certificate : Type 0
  pub PrivateKey : Type 0
  pub ServerConfig : Type 0
  pub open_file : Text → Result Text Bytes
  pub certs : Bytes → List (Result Text Certificate)
  pub private_key : Bytes → Result Text (Option PrivateKey)
  pub with_single_cert : List Certificate → PrivateKey → Result Text ServerConfig

-- `format!("... {}: {e}", path.display())`
abbrev failed_at : Text → Text → Text → Text
failed_at message path e = message ++ (path ++ (codes ": " ++ e))

module _ (p : Pem) where
  unfoldable pub load_certificates : Text → Result StartupError (List p.Certificate)
  load_certificates path = do
    file ← map_err (failed_at (codes "failed to open certificate ") path) (p.open_file path)
    map_err (failed_at (codes "failed to parse certificate ") path) (collect (p.certs file))

  unfoldable pub load_private_key : Text → Result StartupError p.PrivateKey
  load_private_key path = do
    file ← map_err (failed_at (codes "failed to open private key ") path) (p.open_file path)
    key ← map_err (failed_at (codes "failed to parse private key ") path) (p.private_key file)
    ok_or key
        (codes "no usable private key in " ++ (path ++ codes " (PKCS#8 / RSA / EC are supported)"))

  abbrev pub checked : Text → List p.Certificate → Result StartupError (Unit {0})
  checked path [] = err (codes "no certificate found in " ++ path)
  checked path (certificate ∷ more) = ok tt

  unfoldable pub load_server_config : Text → Text → Result StartupError p.ServerConfig
  load_server_config cert_path key_path = do
    certificates ← load_certificates cert_path
    checked cert_path certificates
    key ← load_private_key key_path
    map_err (λ e. codes "certificate and private key do not match or are unusable: " ++ e)
        (p.with_single_cert certificates key)

-- The crypto provider of the process, if one is installed, and that of `aws_lc_rs`.
pub record Crypto : Type 1 where
  pub Provider : Type 0
  pub Certificate : Type 0
  pub Signature : Type 0
  pub Algorithms : Type 0
  pub Scheme : Type 0
  pub aws_lc_rs : Provider
  pub algorithms : Provider → Algorithms
  pub supported_schemes : Algorithms → List Scheme
  pub verify_tls12 : Bytes → Certificate → Signature → Algorithms → Result Text (Unit {0})
  pub verify_tls13 : Bytes → Certificate → Signature → Algorithms → Result Text (Unit {0})

module _ (c : Crypto) where
  -- `install_crypto_provider`: the provider of the process before and after.
  unfoldable pub install_crypto_provider : Option c.Provider → Option c.Provider
  install_crypto_provider none = some c.aws_lc_rs
  install_crypto_provider (some provider) = some provider

  pub record NoVerifier : Type 0 where
    pub provider : c.Provider

  -- `NoVerifier::new`
  unfoldable pub new_verifier : Option c.Provider → NoVerifier
  new_verifier default = record { provider = unwrap_or default c.aws_lc_rs }

  unfoldable pub verify_server_cert :
      NoVerifier → c.Certificate → List c.Certificate → Text → Bytes → ℕ → Result Text (Unit {0})
  verify_server_cert v end_entity intermediates server_name ocsp_response now = ok tt

  unfoldable pub verify_tls12_signature :
      NoVerifier → Bytes → c.Certificate → c.Signature → Result Text (Unit {0})
  verify_tls12_signature v message cert dss =
      c.verify_tls12 message cert dss (c.algorithms v.provider)

  unfoldable pub verify_tls13_signature :
      NoVerifier → Bytes → c.Certificate → c.Signature → Result Text (Unit {0})
  verify_tls13_signature v message cert dss =
      c.verify_tls13 message cert dss (c.algorithms v.provider)

  unfoldable pub supported_verify_schemes : NoVerifier → List c.Scheme
  supported_verify_schemes v = c.supported_schemes (c.algorithms v.provider)

  -- The builders of `hyper_rustls` and of the client.
  pub record Https : Type 1 where
    pub Builder : Type 0
    pub Connector : Type 0
    pub HttpClient : Type 0
    pub with_verifier : NoVerifier → Builder
    pub with_native_roots : Result Text Builder
    pub with_webpki_roots : Builder
    pub https_or_http : Builder → Connector
    -- With the seconds that a connection may idle and the number of idle ones for each host.
    pub client : ℕ → ℕ → Connector → HttpClient

  module _ (default : Option c.Provider) (https : Https) where
    abbrev or_webpki : Result Text https.Builder → https.Builder
    or_webpki (ok builder) = builder
    or_webpki (err e) = https.with_webpki_roots

    unfoldable pub connector : Bool → https.Connector
    connector insecure_skip_verify =
        if insecure_skip_verify
        then https.https_or_http (https.with_verifier (new_verifier default))
        else https.https_or_http (or_webpki https.with_native_roots)

    unfoldable pub build_client : Bool → Result StartupError https.HttpClient
    build_client insecure_skip_verify = ok (https.client 90 64 (connector insecure_skip_verify))
