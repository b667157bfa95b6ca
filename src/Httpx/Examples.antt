-- ===== src/Httpx/Examples.antt =====
-- A system with no pool of its own, where each file that is read holds a certificate.
use claviger.Prelude.{String, ◌≡◌, refl, true, false, List, [], ◌∷◌, none, some, ok}
use claviger.Httpx.{
  TlsConfig, CertLib, TlsClientConfig, has_some, has_any, root_cas, client_certs, transport,
  transport-exact,
}

abbrev files : CertLib (List String) String
files = record {
  system_pool = none;
  new_pool = [];
  read_file = λ path. ok path;
  append_certs = λ pool pem. some (pem ∷ pool);
  load_pair = λ cert key. ok cert;
}

abbrev mutual_tls : TlsConfig
mutual_tls = record {
  insecure_skip_verify = false;
  ca_cert_file = "ca.pem";
  client_cert_file = "c.pem";
  client_key_file = "k.pem";
}

abbrev built : TlsClientConfig (List String) String
built = record {
  insecure_skip_verify = false;
  root_cas = some ("ca.pem" ∷ []);
  certificates = "c.pem" ∷ [];
}

transport-exact_example :
    (built.insecure_skip_verify ≡ false)
    × (has_some built.root_cas ≡ true)
    × (has_any built.certificates ≡ true)
    × (has_any built.certificates ≡ true)
unfolding transport root_cas client_certs
transport-exact_example = transport-exact files mutual_tls built refl
