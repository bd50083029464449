-- ===== src/Controller/Certificates/Names.antt =====
-- The certificate of a Kubelet: its names, and that it can be requested.
use supernetes.Prelude.{
  String, List, [], ◌∷◌, ◌++◌, Bool, true, false, not, ◌≡◌, refl, ◌∙◌, sym, Option, none, some,
  ◌==◌, ◌&&◌, ◌||◌, string_eq, contains, map, length, length-map, beq_refl, arith, Bool-cases,
  beq-cases, inl, inr,
}
use supernetes.Kube.{
  NodeAddressType, hostname, internal_ip, external_ip, internal_dns, external_dns, other,
}
use supernetes.Controller.Certificates.Template.{
  CertificateRequest, addresses_to_hostnames_and_ips, template_of, get_template, Seen, insert_key,
  see_name, see_ip, is_ip, note, note_all,
}

contains-append :
    (n m : String) (xs : List String) → contains n (xs ++ m ∷ []) ≡ contains n xs || (m == n)
unfolding contains
contains-append n m [] = ground arith
contains-append n m (x ∷ xs) = ground (arith, contains-append n m xs)

contains-insert_key :
    (n m : String) (xs : List String) → contains n (insert_key m xs) ≡ contains n xs || (m == n)
unfolding insert_key
contains-insert_key n m xs = ground (arith, contains-append n m xs, beq-cases m n)

module _ {Ip : Type 0} (parse_ip : String → Option Ip) where
  -- which addresses are DNS names, and which IP addresses
  abbrev pub is_name : NodeAddressType → String → Bool
  is_name hostname address = not (is_ip parse_ip address)
  is_name internal_ip address = false
  is_name external_ip address = false
  is_name internal_dns address = true
  is_name external_dns address = true
  is_name other address = false

  abbrev pub is_address : NodeAddressType → String → Bool
  is_address hostname address = is_ip parse_ip address
  is_address internal_ip address = is_ip parse_ip address
  is_address external_ip address = is_ip parse_ip address
  is_address internal_dns address = false
  is_address external_dns address = false
  is_address other address = false

  -- whether some address of the list is `n`, is not empty and passes a test
  abbrev pub any_is :
      (NodeAddressType → String → Bool) → String → List (NodeAddressType × String) → Bool
  any_is test n [] = false
  any_is test n ((kind, address) ∷ addresses) =
      (not (address == "") && (test kind address && (address == n))) || any_is test n addresses

  note-contains :
      (kind : NodeAddressType) (address n : String) (seen : Seen)
      → (contains n (note parse_ip kind address seen).dns_names
          ≡ contains n seen.dns_names || (is_name kind address && (address == n)))
        × (contains n (note parse_ip kind address seen).ips
            ≡ contains n seen.ips || (is_address kind address && (address == n)))
  unfolding note see_name see_ip
  note-contains hostname address n seen =
      ground (
        arith,
        contains-insert_key n address seen.dns_names,
        contains-insert_key n address seen.ips,
      )
  note-contains internal_ip address n seen = ground (arith, contains-insert_key n address seen.ips)
  note-contains external_ip address n seen = ground (arith, contains-insert_key n address seen.ips)
  note-contains internal_dns address n seen =
      ground (arith, contains-insert_key n address seen.dns_names)
  note-contains external_dns address n seen =
      ground (arith, contains-insert_key n address seen.dns_names)
  note-contains other address n seen = ground arith

  -- The names of a certificate are exactly the addresses that are names, a host name that is no IP
  -- address included, and its IP addresses those that are written as one and not meant as a name.
  note_all-contains :
      (addresses : List (NodeAddressType × String)) (n : String) (seen : Seen)
      → (contains n (note_all parse_ip addresses seen).dns_names
          ≡ contains n seen.dns_names || any_is is_name n addresses)
        × (contains n (note_all parse_ip addresses seen).ips
            ≡ contains n seen.ips || any_is is_address n addresses)
  unfolding note_all
  note_all-contains [] n seen = ground arith
  note_all-contains ((kind, address) ∷ addresses) n seen = elim (Bool-cases (address == "")) [
    | inl y ↦ ground (arith, note_all-contains addresses n seen, y)
    | inr m ↦ ground (
      arith,
      note_all-contains addresses n (note parse_ip kind address seen),
      note-contains kind address n seen,
      m,
    )
  ]

  -- Sorting keeps the names and the number of IP addresses.
  module _ (sort_names : List String → List String) (sort_ips : List (Option Ip) → List (Option Ip))
      (names_kept : (n : String) (xs : List String) → contains n (sort_names xs) ≡ contains n xs)
      (count_kept : (xs : List (Option Ip)) → length (sort_ips xs) ≡ length xs) where
    abbrev all_seen : List (NodeAddressType × String) → Seen
    all_seen addresses = note_all parse_ip addresses (record { dns_names = []; ips = [] })

    -- what is requested, if there is an IP address to request it for
    abbrev pub IsRequested :
        List (NodeAddressType × String) → Option (CertificateRequest Ip) → Type 0
    IsRequested addresses none = (n : String) → any_is is_address n addresses ≡ false
    IsRequested addresses (some t) =
        ((n : String) → contains n t.dns_names ≡ any_is is_name n addresses)
        × (n : String) × (any_is is_address n addresses ≡ true)

    of_ips :
        (node_name : String) (addresses : List (NodeAddressType × String)) (ips : List String)
        (sorted : List (Option Ip))
        → (all_seen addresses).ips ≡ ips
        → length sorted ≡ length ips
        → IsRequested addresses (
            template_of parse_ip sort_names sort_ips node_name
              (sort_names (all_seen addresses).dns_names)
              sorted)
    unfolding template_of contains
    of_ips node_name addresses [] [] same count = λ n.
        sym ((note_all-contains addresses n (record { dns_names = []; ips = [] })).1) ∙ rw same refl
    of_ips node_name addresses (ip ∷ ips) [] same count = absurd (cc count)
    of_ips node_name addresses [] (s ∷ sorted) same count = absurd (cc count)
    of_ips node_name addresses (ip ∷ ips) (s ∷ sorted) same count = (
      λ n.
          names_kept n (all_seen addresses).dns_names
          ∙ (note_all-contains addresses n (record { dns_names = []; ips = [] })).0,
      ip,
      sym ((note_all-contains addresses ip (record { dns_names = []; ips = [] })).1)
          ∙ rw same (rw (beq_refl ip) refl),
    )

    -- A certificate is requested exactly if some address of the node is an IP address that is not
    -- meant as a DNS name. Its DNS names are then exactly the addresses that are meant as names and
    -- the host names that are no IP addresses; empty addresses do not count. Sorting the names keeps
    -- each of them, and sorting the IP addresses keeps their number.
    pub get_template-IsRequested :
        (node_name : String) (addresses : List (NodeAddressType × String))
        → IsRequested addresses (get_template parse_ip sort_names sort_ips node_name addresses)
    unfolding get_template addresses_to_hostnames_and_ips
    get_template-IsRequested node_name addresses =
        of_ips node_name addresses (all_seen addresses).ips
          (sort_ips (map parse_ip (all_seen addresses).ips)) refl
          (count_kept (map parse_ip (all_seen addresses).ips)
            ∙ length-map parse_ip (all_seen addresses).ips)
