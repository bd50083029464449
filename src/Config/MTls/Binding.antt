-- ===== src/Config/MTls/Binding.antt =====
-- CreatePair: the two configurations belong together.
use supernetes.Prelude.{ℕ, String, ◌≡◌, refl, sym, ap, ◌∙◌}
use supernetes.Prelude.Results.{Result, ok, wrap, and_then-ok, wrap-ok, ok-injective}
use supernetes.Config.{MTlsConfig}
use supernetes.Config.MTls.{
  CertType, ca, client, server, Certificate, common_name_of, key_usage_of, ext_key_usage_of,
  is_ca_type, dns_names_of, Duration, add_duration, CertificateData, SignedCaData, Crypto,
  encode_cert, encode_priv_key, self_sign, to_mtls, init_cert, create_pair,
}

module _ {Public Private : Type 0} (crypto : Crypto Public Private) (parse : String → Result String)
    (valid_for : Duration) (endpoint : String) (now : ℕ) where
  abbrev pub Data : Type 0
  Data = CertificateData Public Private

  -- what a certificate says for its type
  abbrev pub Describes : CertType → Certificate → Type 0
  Describes c_type certificate =
      (certificate.key_usage ≡ key_usage_of c_type)
      × (certificate.ext_key_usage ≡ ext_key_usage_of c_type)
      × (certificate.is_ca ≡ is_ca_type c_type)
      × (certificate.not_before ≡ now)
      × (certificate.not_after ≡ add_duration now valid_for)
      × (dns_names_of parse endpoint c_type ≡ ok certificate.dns_names)

  init_cert-Describes :
      (n : ℕ) (c_type : CertType) {c : Data}
      → init_cert crypto parse valid_for endpoint n now c_type ≡ ok c
      → Describes c_type c.certificate
  unfolding init_cert
  init_cert-Describes n c_type {c} e =
      let (keys, _, e1) = and_then-ok (wrap "failed to generate keys" (crypto.generate_key n)) e in
      let (serial, _, e2) =
        and_then-ok (wrap "failed to generate serial number" (crypto.random_serial n)) e1 in
      let (dns_names, names, e3) = and_then-ok (dns_names_of parse endpoint c_type) e2 in
      let same : c.certificate ≡ record {
        serial_number = serial;
        common_name = common_name_of c_type;
        not_before = now;
        not_after = add_duration now valid_for;
        key_usage = key_usage_of c_type;
        ext_key_usage = ext_key_usage_of c_type;
        dns_names = dns_names;
        is_ca = is_ca_type c_type;
      } =
        ap (λ d. d.certificate) (sym (ok-injective e3)) in
      rw same (refl, refl, refl, refl, refl, names)

  init_cert-keys :
      (n : ℕ) (c_type : CertType) {c : Data}
      → init_cert crypto parse valid_for endpoint n now c_type ≡ ok c
      → crypto.generate_key n ≡ ok (c.public_key, c.private_key)
  unfolding init_cert
  init_cert-keys n c_type {c} e =
      let (keys, made, e1) =
        and_then-ok (wrap "failed to generate keys" (crypto.generate_key n)) e in
      let (serial, _, e2) =
        and_then-ok (wrap "failed to generate serial number" (crypto.random_serial n)) e1 in
      let (dns_names, names, e3) = and_then-ok (dns_names_of parse endpoint c_type) e2 in
      wrap-ok "failed to generate keys" (crypto.generate_key n) made
      ∙ ap (λ (d : Data). ok (d.public_key, d.private_key)) (ok-injective e3)

  -- A configuration holds the private key of the n-th key pair, and a certificate of its type for
  -- the public key of the same pair, signed with the key of the authority, whose own certificate
  -- it holds too.
  abbrev pub IsIssued : Data → ℕ → CertType → Certificate → MTlsConfig → Type 0
  IsIssued authority n c_type certificate m =
      (public : Public) × (private : Private) × (signed : String) × (own : String)
      × (crypto.generate_key n ≡ ok (public, private))
      × (crypto.create_certificate certificate authority.certificate public authority.private_key
          ≡ ok signed)
      × (encode_cert crypto signed ≡ ok m.cert)
      × (encode_priv_key crypto private ≡ ok m.key)
      × (crypto.create_certificate authority.certificate authority.certificate authority.public_key
            authority.private_key
          ≡ ok own)
      × (encode_cert crypto own ≡ ok m.ca)
      × Describes c_type certificate

  self_sign-ok :
      (authority : Data) {s : SignedCaData Private}
      → self_sign crypto authority ≡ ok s
      → (own : String) × (crypto.create_certificate authority.certificate authority.certificate
            authority.public_key authority.private_key
          ≡ ok own)
        × (encode_cert crypto own ≡ ok s.certificate_pem)
        × (s.certificate ≡ authority.certificate)
        × (s.private_key ≡ authority.private_key)
  unfolding self_sign
  self_sign-ok authority {s} e =
      let (own, created, e1) =
        and_then-ok
          (crypto.create_certificate authority.certificate authority.certificate
            authority.public_key authority.private_key)
          e in
      let (pem, encoded, e2) = and_then-ok (encode_cert crypto own) e1 in
      let same = ok-injective e2 in
      (
        own,
        created,
        encoded ∙ ap (λ x. ok x.certificate_pem) same,
        ap (λ x. x.certificate) (sym same),
        ap (λ x. x.private_key) (sym same),
      )

  to_mtls-ok :
      (s : SignedCaData Private) (c : Data) {m : MTlsConfig}
      → to_mtls crypto s c ≡ ok m
      → (signed : String) × (crypto.create_certificate c.certificate s.certificate c.public_key
            s.private_key
          ≡ ok signed)
        × (encode_cert crypto signed ≡ ok m.cert)
        × (encode_priv_key crypto c.private_key ≡ ok m.key)
        × (m.ca ≡ s.certificate_pem)
  unfolding to_mtls
  to_mtls-ok s c {m} e =
      let (signed, created, e1) =
        and_then-ok
          (crypto.create_certificate c.certificate s.certificate c.public_key s.private_key) e in
      let (pem, encoded, e2) = and_then-ok (encode_cert crypto signed) e1 in
      let (key, marshalled, e3) = and_then-ok (encode_priv_key crypto c.private_key) e2 in
      let same = ok-injective e3 in
      (
        signed,
        created,
        encoded ∙ ap (λ x. ok x.cert) same,
        marshalled ∙ ap (λ x. ok x.key) same,
        ap (λ x. x.ca) (sym same),
      )

  issued :
      (n : ℕ) (c_type : CertType) (authority c : Data) (s : SignedCaData Private) {m : MTlsConfig}
      → self_sign crypto authority ≡ ok s
      → init_cert crypto parse valid_for endpoint n now c_type ≡ ok c
      → to_mtls crypto s c ≡ ok m
      → IsIssued authority n c_type c.certificate m
  issued n c_type authority c s signs inits makes =
      let (own, created, encoded, same, key) = self_sign-ok authority signs in
      let (signed, issue, pem, private, from) = to_mtls-ok s c makes in
      (
        c.public_key,
        c.private_key,
        signed,
        own,
        init_cert-keys n c_type inits,
        rw (← same, ← key) issue,
        pem,
        private,
        created,
        rw from encoded,
        init_cert-Describes n c_type inits,
      )

  pub create_pair-IsIssued :
      (c a : MTlsConfig)
      → create_pair crypto parse valid_for endpoint now ≡ ok (c, a)
      → (authority : Data) × (controller : Certificate) × (agent : Certificate)
        × (crypto.generate_key 0 ≡ ok (authority.public_key, authority.private_key))
        × Describes ca authority.certificate
        × IsIssued authority 1 server controller c
        × IsIssued authority 2 client agent a
  unfolding create_pair
  create_pair-IsIssued c a e =
      let (authority, inits, e1) =
        and_then-ok
          (wrap "unable to initialize CA certificate"
            (init_cert crypto parse valid_for endpoint 0 now ca))
          e in
      let (s, signs, e2) =
        and_then-ok (wrap "unable to self-sign CA certificate" (self_sign crypto authority)) e1 in
      let (c_cert, c_inits, e3) =
        and_then-ok
          (wrap "unable to initialize controller certificate"
            (init_cert crypto parse valid_for endpoint 1 now server))
          e2 in
      let (a_cert, a_inits, e4) =
        and_then-ok
          (wrap "unable to initialize agent certificate"
            (init_cert crypto parse valid_for endpoint 2 now client))
          e3 in
      let (c', c_makes, e5) =
        and_then-ok
          (wrap "unable to create controller mTLS configuration" (to_mtls crypto s c_cert)) e4 in
      let (a', a_makes, e6) =
        and_then-ok (wrap "unable to create agent mTLS configuration" (to_mtls crypto s a_cert))
          e5 in
      let same = ok-injective e6 in
      let signs' =
        wrap-ok "unable to self-sign CA certificate" (self_sign crypto authority) signs in
      (
        authority,
        c_cert.certificate,
        a_cert.certificate,
        init_cert-keys 0 ca (
            wrap-ok "unable to initialize CA certificate"
              (init_cert crypto parse valid_for endpoint 0 now ca) inits),
        init_cert-Describes 0 ca (
            wrap-ok "unable to initialize CA certificate"
              (init_cert crypto parse valid_for endpoint 0 now ca) inits),
        issued 1 server authority c_cert s signs'
            (wrap-ok "unable to initialize controller certificate"
              (init_cert crypto parse valid_for endpoint 1 now server) c_inits)
            (wrap-ok "unable to create controller mTLS configuration" (to_mtls crypto s c_cert)
                c_makes
              ∙ ap (λ p. ok p.0) same),
        issued 2 client authority a_cert s signs'
            (wrap-ok "unable to initialize agent certificate"
              (init_cert crypto parse valid_for endpoint 2 now client) a_inits)
            (wrap-ok "unable to create agent mTLS configuration" (to_mtls crypto s a_cert) a_makes
              ∙ ap (λ p. ok p.1) same),
      )
