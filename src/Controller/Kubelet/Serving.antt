-- ===== src/Controller/Kubelet/Serving.antt =====
-- NewInstance and the certificate of its Kubelet server.
use supernetes.Prelude.{
  String, List, Bool, true, ◌≡◌, ◌≢◌, refl, Option, none, some, string_eq, contains, length,
  beq_refl, beq-cases, arith,
}
use supernetes.Kube.{NodeAddressType}
use supernetes.Controller.Nodes.{Node}
use supernetes.Controller.Environment.{Environment, address_of}
use supernetes.Controller.Certificates.Template.{CertificateRequest, is_ip, get_template}
use supernetes.Controller.Certificates.Names.{
  any_is, is_address, IsRequested, get_template-IsRequested,
}
use supernetes.Controller.Kubelet.{new_instance, internal_address}

module _ {A Ip : Type 0} (show : A → String) (parse_ip : String → Option Ip)
    (sort_names : List String → List String) (sort_ips : List (Option Ip) → List (Option Ip))
    (names_kept : (n : String) (xs : List String) → contains n (sort_names xs) ≡ contains n xs)
    (count_kept : (xs : List (Option Ip)) → length (sort_ips xs) ≡ length xs) where
  some-IsRequested :
      (addresses : List (NodeAddressType × String)) (n : String)
      (o : Option (CertificateRequest Ip))
      → any_is parse_ip (is_address parse_ip) n addresses ≡ true
      → IsRequested parse_ip sort_names sort_ips names_kept count_kept addresses o
      → (t : CertificateRequest Ip) × (o ≡ some t)
  some-IsRequested addresses n none y h = absurd (cc (y, h n))
  some-IsRequested addresses n (some t) y h = (t, refl)

  is_ip-parsed :
      (address : String) (ip : Ip) → parse_ip address ≡ some ip → is_ip parse_ip address ≡ true
  unfolding is_ip
  is_ip-parsed address ip parsed = rw (parsed, is_ip) refl

  internal_ip-is_address :
      (node : Node) (env : Environment A) (is_openshift : Bool) (a : A) (ip : Ip)
      → address_of env ≡ some a
      → parse_ip (show a) ≡ some ip
      → show a ≢ ""
      → any_is parse_ip
          (is_address parse_ip)
          (show a)
          (new_instance show node env is_openshift).node_spec.addresses
        ≡ true
  unfolding new_instance internal_address
  internal_ip-is_address node env is_openshift a ip given parsed named = rw given (
      ground
        (arith, is_ip-parsed (show a) ip parsed, beq_refl (show a), beq-cases (show a) "", named))

  -- When the controller knows its address, the instance of a node enables the Kubelet server, and a
  -- certificate can be requested for the addresses of that node, so that the server does not wait
  -- in vain for a request. The address is written as a text that parses as an IP address; sorting
  -- the names keeps each of them, and sorting the IP addresses keeps their number.
  pub new_instance-get_template :
      (node : Node) (env : Environment A) (is_openshift : Bool) (a : A) (ip : Ip)
      → address_of env ≡ some a
      → parse_ip (show a) ≡ some ip
      → show a ≢ ""
      → ((new_instance show node env is_openshift).enable_kubelet_server ≡ true)
        × (t : CertificateRequest Ip) × (get_template parse_ip sort_names sort_ips node.name
              (new_instance show node env is_openshift).node_spec.addresses
            ≡ some t)
  unfolding new_instance
  new_instance-get_template node env is_openshift a ip given parsed named =
      let addresses = (new_instance show node env is_openshift).node_spec.addresses in
      let (t, requested) =
        some-IsRequested addresses (show a)
          (get_template parse_ip sort_names sort_ips node.name addresses)
          (internal_ip-is_address node env is_openshift a ip given parsed named)
          (get_template-IsRequested parse_ip sort_names sort_ips names_kept count_kept node.name
            addresses) in
      (rw given refl, t, requested)
