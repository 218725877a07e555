-- ===== src/CertManager/Chain.antt =====
-- The certificates of the cert-manager check form a chain.
use kibertas.Prelude.{String, true, ◌≡◌, refl, ◌≢◌, arith, str_eq_iff}
use text.Mathlib.TextLemmas.{append_cancel_left}
use kibertas.Api.{Certificate, Issuer}
use kibertas.CertManager.Objects.{CertManager, create_certificate_object}

-- An issuer signs with the key of a root certificate: the root is a CA, and its secret, in the same
-- namespace, is the one that the issuer reads.
pub record SignsWith (issuer : Issuer) (root : Certificate) : Type 0 where
  pub is_ca : root.is_ca ≡ true
  pub secret : issuer.ca_secret_name ≡ root.secret_name
  pub namespace : issuer.namespace ≡ root.namespace

-- A certificate asks a namespaced issuer to sign it: by its kind and name, in the same namespace.
pub record IssuedBy (certificate : Certificate) (issuer : Issuer) : Type 0 where
  pub kind : certificate.issuer_ref.kind ≡ "Issuer"
  pub name : certificate.issuer_ref.name ≡ issuer.name
  pub namespace : certificate.namespace ≡ issuer.namespace

cert-ne-tls : ◌≢◌ {A = String} "-cert" "-tls"
cert-ne-tls = ground (arith, str_eq_iff "-cert" "-tls")

cert-ne-ca : ◌≢◌ {A = String} "-cert" "-ca"
cert-ne-ca = ground (arith, str_eq_iff "-cert" "-ca")

-- Whatever the resource is called, the certificate is issued by the issuer, which signs with the
-- root CA, and the two certificates have different secrets and different names.
pub certificates_chain :
    (c : CertManager)
    → let cert = create_certificate_object c in
      IssuedBy cert.certificate cert.issuer
      × SignsWith cert.issuer cert.root_ca
      × (cert.certificate.secret_name ≢ cert.root_ca.secret_name)
      × (cert.certificate.name ≢ cert.root_ca.name)
unfolding create_certificate_object
certificates_chain c = (
  record { kind = refl; name = refl; namespace = refl },
  record { is_ca = refl; secret = refl; namespace = refl },
  λ e. cert-ne-tls (append_cancel_left c.resource_name "-cert" "-tls" e),
  λ e. cert-ne-ca (append_cancel_left c.resource_name "-cert" "-ca" e),
)
