-- ===== src/Httpx.antt =====
-- internal/httpx/httpx.go: the TLS settings of a client. The certificate pools and the files are
-- of the Go library and the system: a parameter.
mod Examples
use claviger.Prelude.{
  String, ◌≡◌, refl, Bool, true, false, not, ◌&&◌, ◌||◌, List, [], ◌∷◌, Option, none, some,
  bad_input, Result, ok, err, ◌>>=◌, ◌==◌, if◌then◌else◌, arith,
}

-- TLSConfig
pub record TlsConfig : Type 0 where
  pub insecure_skip_verify : Bool
  pub ca_cert_file : String
  pub client_cert_file : String
  pub client_key_file : String

-- What Transport takes from os, crypto/tls and crypto/x509: `P` is a pool of roots, `C` a
-- certificate with its key.
pub record CertLib (P C : Type 0) : Type 0 where
  -- x509.SystemCertPool, `none` on an error or a nil pool
  pub system_pool : Option P
  -- x509.NewCertPool
  pub new_pool : P
  -- os.ReadFile
  pub read_file : String → Result String
  -- AppendCertsFromPEM, `none` if it found no certificate
  pub append_certs : P → String → Option P
  -- tls.LoadX509KeyPair of a certificate file and a key file
  pub load_pair : String → String → Result C

-- The fields of the transport's tls.Config that Transport sets.
pub record TlsClientConfig (P C : Type 0) : Type 0 where
  pub insecure_skip_verify : Bool
  pub root_cas : Option P
  pub certificates : List C

abbrev or_new {ℓ} : {P : Type ℓ} → P → Option P → P
or_new fresh none = fresh
or_new fresh (some pool) = pool

abbrev roots_or_fail {ℓ} : {P : Type ℓ} → Option P → Result (Option P)
roots_or_fail none = err (bad_input "ca cert: no certificates found")
roots_or_fail (some pool) = ok (some pool)

abbrev pub has_some {ℓ} : {A : Type ℓ} → Option A → Bool
has_some none = false
has_some (some a) = true

abbrev pub has_any {ℓ} : {A : Type ℓ} → List A → Bool
has_any [] = false
has_any (a ∷ more) = true

module _ {P C : Type 0} (lib : CertLib P C) where
  -- The roots: those of the system with the file's added to them.
  unfoldable pub root_cas : TlsConfig → Result (Option P)
  root_cas cfg =
      if not (cfg.ca_cert_file == "")
      then (lib.read_file cfg.ca_cert_file >>= λ pem.
          roots_or_fail (lib.append_certs (or_new lib.new_pool lib.system_pool) pem))
      else ok none

  -- The client certificate, for which both files are needed.
  unfoldable pub client_certs : TlsConfig → Result (List C)
  client_certs cfg =
      if not (cfg.client_cert_file == "") || not (cfg.client_key_file == "")
      then (if (cfg.client_cert_file == "") || (cfg.client_key_file == "")
          then err (bad_input "client cert and key must both be set")
          else (lib.load_pair cfg.client_cert_file cfg.client_key_file >>= λ cert. ok (cert ∷ [])))
      else ok []

  -- Transport: its tls.Config
  unfoldable pub transport : TlsConfig → Result (TlsClientConfig P C)
  transport cfg = root_cas cfg >>= λ roots. client_certs cfg >>= λ certs. ok (record {
    insecure_skip_verify = cfg.insecure_skip_verify;
    root_cas = roots;
    certificates = certs;
  })

  -- Client, where `dial` is the client that net/http makes of a transport
  unfoldable pub client {ℓ} : {A : Type ℓ} → (TlsClientConfig P C → A) → TlsConfig → Result A
  client dial cfg = transport cfg >>= λ t. ok (dial t)

  -- A transport that is built checks the server as the configuration says, and has roots of its
  -- own exactly if a CA file is named. It presents a client certificate exactly if both files are
  -- named; with only one of them there is no transport.
  pub transport-exact :
      (cfg : TlsConfig) (t : TlsClientConfig P C)
      → transport cfg ≡ ok t
      → (t.insecure_skip_verify ≡ cfg.insecure_skip_verify)
        × (has_some t.root_cas ≡ not (cfg.ca_cert_file == ""))
        × (has_any t.certificates ≡ not (cfg.client_cert_file == ""))
        × (has_any t.certificates ≡ not (cfg.client_key_file == ""))
  unfolding transport root_cas client_certs
  transport-exact cfg t h = ground arith
