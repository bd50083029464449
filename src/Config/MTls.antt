-- ===== src/Config/MTls.antt =====
-- config/pkg/generate/mtls.go: the certificates of a controller and its agent.
pub mod Binding
pub mod Validity
use supernetes.Prelude.{
  ℕ, ◌+◌, ◌-◌, ◌*◌, ◌%◌, String, List, [], ◌∷◌, Bool, true, false, ltb, if◌then◌else◌,
}
use supernetes.Prelude.Results.{Result, ok, failed, and_then, wrap}
use supernetes.Config.{MTlsConfig, hostname}

pub data CertType : Type 0 where
  ca client server : CertType

pub data KeyUsage : Type 0 where
  cert_sign digital_signature : KeyUsage

pub data ExtKeyUsage : Type 0 where
  client_auth server_auth : ExtKeyUsage

-- `x509.Certificate`; BasicConstraintsValid is always what IsCA is.
pub record Certificate : Type 0 where
  pub serial_number : ℕ
  pub common_name : String
  pub not_before : ℕ
  pub not_after : ℕ
  pub key_usage : KeyUsage
  pub ext_key_usage : List ExtKeyUsage
  pub dns_names : List String
  pub is_ca : Bool

unfoldable pub common_name_of : CertType → String
common_name_of ca = "Supernetes mTLS root CA"
common_name_of client = "Supernetes mTLS client (agent)"
common_name_of server = "Supernetes mTLS server (controller)"

unfoldable pub key_usage_of : CertType → KeyUsage
key_usage_of ca = KeyUsage.cert_sign
key_usage_of client = KeyUsage.digital_signature
key_usage_of server = KeyUsage.digital_signature

unfoldable pub ext_key_usage_of : CertType → List ExtKeyUsage
ext_key_usage_of ca = ExtKeyUsage.client_auth ∷ ExtKeyUsage.server_auth ∷ []
ext_key_usage_of client = ExtKeyUsage.client_auth ∷ []
ext_key_usage_of server = ExtKeyUsage.server_auth ∷ []

unfoldable pub is_ca_type : CertType → Bool
is_ca_type ca = true
is_ca_type client = false
is_ca_type server = false

-- Only the certificate of the server has a DNS name.
unfoldable pub dns_names_of : (String → Result String) → String → CertType → Result (List String)
unfolding hostname and_then
dns_names_of parse endpoint ca = ok []
dns_names_of parse endpoint client = ok []
dns_names_of parse endpoint server = and_then (hostname parse endpoint) (λ name. ok (name ∷ []))

-- `time.Duration`, as the 64-bit pattern of its nanoseconds
abbrev pub Duration : Type 0
Duration = ℕ

-- the validity of Generate, time.Duration(days) * time.Hour * 24
unfoldable pub validity_period : ℕ → Duration
validity_period days = (days * 3600000000000 * 24) % 18446744073709551616

-- `Time.Add`, of nanoseconds since some time long ago
unfoldable pub add_duration : ℕ → Duration → ℕ
add_duration time d =
    if ltb d 9223372036854775808 then time + d else time - (18446744073709551616 - d)

pub record CertificateData (Public Private : Type 0) : Type 0 where
  pub certificate : Certificate
  pub private_key : Private
  pub public_key : Public

pub record SignedCaData (Private : Type 0) : Type 0 where
  pub certificate_pem : String
  pub certificate : Certificate
  pub private_key : Private

-- The libraries' part: the n-th key pair and the n-th serial number, x509.CreateCertificate,
-- pem.Encode and x509.MarshalPKCS8PrivateKey.
pub record Crypto (Public Private : Type 0) : Type 0 where
  pub generate_key : ℕ → Result (Public × Private)
  pub random_serial : ℕ → Result ℕ
  pub create_certificate : Certificate → Certificate → Public → Private → Result String
  pub pem_encode : String → String → Result String
  pub marshal_pkcs8 : Private → Result String

module _ {Public Private : Type 0} (crypto : Crypto Public Private) where
  -- the functions of config/pkg/generate/encode.go
  unfoldable pub encode_bytes : String → String → Result String
  encode_bytes block_type block_data = crypto.pem_encode block_type block_data

  unfoldable pub encode_cert : String → Result String
  unfolding encode_bytes
  encode_cert bytes = encode_bytes "CERTIFICATE" bytes

  unfoldable pub encode_priv_key : Private → Result String
  unfolding encode_bytes and_then
  encode_priv_key key =
      and_then (crypto.marshal_pkcs8 key) (λ bytes. encode_bytes "PRIVATE KEY" bytes)

  unfoldable pub self_sign : CertificateData Public Private → Result (SignedCaData Private)
  unfolding and_then
  self_sign c =
      and_then (crypto.create_certificate c.certificate c.certificate c.public_key c.private_key)
        (λ bytes. and_then (encode_cert bytes) (λ pem. ok (record {
          certificate_pem = pem;
          certificate = c.certificate;
          private_key = c.private_key;
        })))

  unfoldable pub to_mtls : SignedCaData Private → CertificateData Public Private → Result MTlsConfig
  unfolding and_then
  to_mtls signed c =
      and_then
        (crypto.create_certificate c.certificate signed.certificate c.public_key signed.private_key)
        (λ bytes. and_then (encode_cert bytes) (λ pem.
          and_then (encode_priv_key c.private_key)
            (λ key. ok (record { ca = signed.certificate_pem; key = key; cert = pem }))))

  -- `mTlsBinding`
  module _ (parse : String → Result String) (valid_for : Duration) (endpoint : String) where
    -- `initCert` as the n-th certificate, at the time `now`
    unfoldable pub init_cert : ℕ → ℕ → CertType → Result (CertificateData Public Private)
    unfolding and_then wrap common_name_of key_usage_of ext_key_usage_of is_ca_type dns_names_of
        add_duration
    init_cert n now c_type =
        and_then (wrap "failed to generate keys" (crypto.generate_key n)) (λ keys.
          and_then (wrap "failed to generate serial number" (crypto.random_serial n)) (λ serial.
            and_then (dns_names_of parse endpoint c_type) (λ dns_names. ok (record {
              certificate = record {
                serial_number = serial;
                common_name = common_name_of c_type;
                not_before = now;
                not_after = add_duration now valid_for;
                key_usage = key_usage_of c_type;
                ext_key_usage = ext_key_usage_of c_type;
                dns_names = dns_names;
                is_ca = is_ca_type c_type;
              };
              private_key = keys.1;
              public_key = keys.0;
            }))))

    -- `CreatePair`: the configurations of the controller and of the agent
    unfoldable pub create_pair : ℕ → Result (MTlsConfig × MTlsConfig)
    unfolding and_then wrap init_cert self_sign to_mtls
    create_pair now =
        and_then (wrap "unable to initialize CA certificate" (init_cert 0 now ca)) (λ ca_cert.
          and_then (wrap "unable to self-sign CA certificate" (self_sign ca_cert)) (λ ca_signed.
            and_then (wrap "unable to initialize controller certificate" (init_cert 1 now server))
              (λ controller_cert.
                and_then (wrap "unable to initialize agent certificate" (init_cert 2 now client))
                  (λ agent_cert.
                    and_then
                      (wrap "unable to create controller mTLS configuration"
                        (to_mtls ca_signed controller_cert))
                      (λ controller_mtls.
                        and_then
                          (wrap "unable to create agent mTLS configuration"
                            (to_mtls ca_signed agent_cert))
                          (λ agent_mtls. ok (controller_mtls, agent_mtls)))))))
