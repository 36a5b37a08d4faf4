-- ===== src/Tls/Loaded.antt =====
-- src/tls.rs: which files make the server's configuration.
use llm_conduit.Prelude.{
  ◌≡◌, refl, sym, ◌∙◌, ◌↔◌, inl, inr, ap, List, [], ◌∷◌, map, some, Result, ok, bind-eq-ok,
  ok-injective, map_err, map_err-eq-ok, arith, Option-cases,
}
use llm_conduit.Prelude.Text.{Text, Bytes}
use llm_conduit.Tls.{collect, checked, Pem, load_certificates, load_private_key, load_server_config}

collect-ok {ℓ κ} :
    {E : Type ℓ} {A : Type κ} (items : List A) → collect {E = E} (map ok items) ≡ ok items
unfolding collect
collect-ok [] = refl
collect-ok {E = E} (a ∷ items) = rw (collect-ok {E = E} items) refl

ok-of_collect {ℓ κ} :
    {E : Type ℓ} {A : Type κ} (rs : List (Result E A)) (items : List A)
    → collect rs ≡ ok items
    → rs ≡ map ok items
unfolding collect
ok-of_collect {E = E} {A = A} [] items e =
    let none_left : ◌≡◌ {A = Result E (List A)} (ok []) (ok items) = e in
    let same : [] ≡ items = ok-injective none_left in ap (map ok) same
ok-of_collect (r ∷ rs) items e =
    let (a, first, e₁) = bind-eq-ok r _ e in
    let (more, rest, e₂) = bind-eq-ok (collect rs) _ e₁ in
    let same : a ∷ more ≡ items = cc in
    rw first (ap (λ m. ok a ∷ m) (ok-of_collect rs more rest) ∙ ap (map ok) same)

module _ (p : Pem) where
  -- The files hold a chain that is read to its end and has a certificate, and a private key that
  -- goes with it.
  pub record IsServerConfig (cert_path key_path : Text) (config : p.ServerConfig) : Type 0 where
    pub chain : Bytes
    pub key_file : Bytes
    pub first : p.Certificate
    pub more : List p.Certificate
    pub key : p.PrivateKey
    pub chain_opens : p.open_file cert_path ≡ ok chain
    pub chain_reads : p.certs chain ≡ map ok (first ∷ more)
    pub key_opens : p.open_file key_path ≡ ok key_file
    pub key_reads : p.private_key key_file ≡ ok (some key)
    pub matches : p.with_single_cert (first ∷ more) key ≡ ok config

  cons-of_checked :
      (path : Text) (certificates : List p.Certificate)
      → checked p path certificates ≡ ok tt
      → (first : p.Certificate) × (more : List p.Certificate) × (certificates ≡ first ∷ more)
  cons-of_checked path [] e = cc
  cons-of_checked path (first ∷ more) e = (first, more, refl)

  certificates-of_load :
      (path : Text) (certificates : List p.Certificate)
      → load_certificates p path ≡ ok certificates
      → (chain : Bytes) × (p.open_file path ≡ ok chain) × (p.certs chain ≡ map ok certificates)
  unfolding load_certificates
  certificates-of_load path certificates e =
      let (chain, opened, e₁) = bind-eq-ok (map_err _ (p.open_file path)) _ e in
      (chain, map_err-eq-ok _ _ opened, ok-of_collect _ certificates (map_err-eq-ok _ _ e₁))

  key-of_load :
      (path : Text) (key : p.PrivateKey)
      → load_private_key p path ≡ ok key
      → (file : Bytes) × (p.open_file path ≡ ok file) × (p.private_key file ≡ ok (some key))
  unfolding load_private_key
  key-of_load path key e =
      let (file, opened, e₁) = bind-eq-ok (map_err _ (p.open_file path)) _ e in
      let (found, read, e₂) = bind-eq-ok (map_err _ (p.private_key file)) _ e₁ in
      elim (Option-cases found) [
        | inl missing ↦ absurd (ground arith)
        | inr (k, present) ↦
            let same : found ≡ some key = ground arith in
            (file, map_err-eq-ok _ _ opened, rw same at (map_err-eq-ok _ _ read))
      ]

  -- The server's configuration is made exactly if both files open, the certificate file holds
  -- certificates only and at least one, the key file holds a private key, and `rustls` takes the
  -- chain and the key together.
  pub load_server_config_iff :
      (cert_path key_path : Text) (config : p.ServerConfig)
      → (load_server_config p cert_path key_path ≡ ok config)
        ↔ IsServerConfig cert_path key_path config
  unfolding load_server_config load_certificates load_private_key
  load_server_config_iff cert_path key_path config = (
    λ e.
        let (certificates, loaded, e₁) = bind-eq-ok (load_certificates p cert_path) _ e in
        let (chain, chain_opens, chain_reads) =
          certificates-of_load cert_path certificates loaded in
        let (done, present, e₂) = bind-eq-ok (checked p cert_path certificates) _ e₁ in
        let (first, more, some_read) = cons-of_checked cert_path certificates present in
        let (key, keyed, e₃) = bind-eq-ok (load_private_key p key_path) _ e₂ in
        let (key_file, key_opens, key_reads) = key-of_load key_path key keyed in
        record {
          chain = chain;
          key_file = key_file;
          first = first;
          more = more;
          key = key;
          chain_opens = chain_opens;
          chain_reads = chain_reads ∙ ap (map ok) some_read;
          key_opens = key_opens;
          key_reads = key_reads;
          matches = ap (λ c. p.with_single_cert c key) (sym some_read) ∙ map_err-eq-ok _ _ e₃;
        },
    λ i.
        let read : collect (p.certs i.chain) ≡ ok (i.first ∷ i.more) =
          rw i.chain_reads (collect-ok (i.first ∷ i.more)) in
        rw (i.chain_opens, read, i.key_opens, i.key_reads, i.matches) refl,
  )
