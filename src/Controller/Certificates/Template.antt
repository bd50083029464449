-- ===== src/Controller/Certificates/Template.antt =====
-- controller/pkg/certificates/certificates.go: what the certificate of a Kubelet is requested for.
use supernetes.Prelude.{
  String, List, [], ◌∷◌, ◌++◌, Bool, true, false, Option, none, some, if◌then◌else◌, ◌==◌,
  string_eq, contains, map,
}
use supernetes.Prelude.Texts
use supernetes.Kube.{
  NodeAddressType, hostname, internal_ip, external_ip, internal_dns, external_dns, other,
}

-- the keys of the maps `seenDNSNames` and `seenIPs`
pub record Seen : Type 0 where
  pub dns_names : List String
  pub ips : List String

unfoldable pub insert_key : String → List String → List String
unfolding contains
insert_key key keys = if contains key keys then keys else keys ++ key ∷ []

unfoldable pub see_name : String → Seen → Seen
unfolding insert_key
see_name name seen = record seen { dns_names = insert_key name seen.dns_names }

unfoldable pub see_ip : String → Seen → Seen
unfolding insert_key
see_ip ip seen = record seen { ips = insert_key ip seen.ips }

pub record CertificateRequest (Ip : Type 0) : Type 0 where
  pub common_name : String
  pub organization : List String
  pub dns_names : List String
  pub ip_addresses : List (Option Ip)

-- `parse_ip` is ParseIPSloppy; a nil address is `none`.
module _ {Ip : Type 0} (parse_ip : String → Option Ip) where
  unfoldable pub is_ip : String → Bool
  is_ip address = elim (parse_ip address) [ none ↦ false | some ip ↦ true ]

  unfoldable pub note : NodeAddressType → String → Seen → Seen
  unfolding is_ip see_name see_ip
  note hostname address seen = if is_ip address then see_ip address seen else see_name address seen
  note internal_ip address seen = if is_ip address then see_ip address seen else seen
  note external_ip address seen = if is_ip address then see_ip address seen else seen
  note internal_dns address seen = see_name address seen
  note external_dns address seen = see_name address seen
  note other address seen = seen

  -- the loop over the addresses
  unfoldable pub note_all : List (NodeAddressType × String) → Seen → Seen
  unfolding note
  note_all [] seen = seen
  note_all ((kind, address) ∷ addresses) seen =
      note_all addresses (if address == "" then seen else note kind address seen)

  -- The two sorts are given the keys in the order in which Go happens to visit the maps.
  module _ (sort_names : List String → List String)
      (sort_ips : List (Option Ip) → List (Option Ip)) where
    unfoldable pub addresses_to_hostnames_and_ips :
        List (NodeAddressType × String) → List String × List (Option Ip)
    unfolding note_all
    addresses_to_hostnames_and_ips addresses =
        let seen = note_all addresses (record { dns_names = []; ips = [] }) in
        (sort_names seen.dns_names, sort_ips (map parse_ip seen.ips))

    unfoldable pub template_of :
        String → List String → List (Option Ip) → Option (CertificateRequest Ip)
    template_of node_name hostnames [] = none
    template_of node_name hostnames (ip ∷ ips) = some (record {
      common_name = Texts.◌++◌ "system:node:" node_name;
      organization = "system:nodes" ∷ [];
      dns_names = hostnames;
      ip_addresses = ip ∷ ips;
    })

    -- the function that newGetTemplateFn returns
    unfoldable pub get_template :
        String → List (NodeAddressType × String) → Option (CertificateRequest Ip)
    unfolding addresses_to_hostnames_and_ips template_of
    get_template node_name addresses =
        let (hostnames, ips) = addresses_to_hostnames_and_ips addresses in
        template_of node_name hostnames ips
