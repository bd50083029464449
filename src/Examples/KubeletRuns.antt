-- ===== src/Examples/KubeletRuns.antt =====
-- Runs of the Kubelet of a node and of the approver.
use supernetes.Prelude.{
  subst, ap, sym, ◌∙◌, ◌==◌, beq_refl, String, [], Bool, true, false, ◌≡◌, ◌⊎◌, refl, Option, none,
  some, string_eq, if◌then◌else◌,
}
use supernetes.Controller.Nodes.{Node}
use supernetes.Controller.Environment.{Environment, address_of}
use supernetes.Controller.Kubelet.{KubeNode, Instance, new_instance}
use supernetes.Controller.Kubelet.Starting.{
  Run, run, fresh, start_pods, ready, start_node, start_server, with_port, mark_ready, select,
  wait_pods, wait_server, wait_node, contains_part, takes, pods_ready, server_ready, node_ready,
  here, next,
}
use supernetes.Controller.Kubelet.Starting.Order.{IsMarked, run-IsMarked}
use supernetes.Controller.Kubelet.Server.{Calls, listening, server_closed, run_server}
use supernetes.Controller.Kubelet.Server.Resources.{held, nothing, run_server-held}
use supernetes.Controller.Certificates.{
  Csr, Answer, found, not_found, kubelet_serving_signer_name, reconcile_csr, handle, is_approved,
  approve, approved_in,
}
use supernetes.Controller.Certificates.Template.{CertificateRequest, get_template}
use supernetes.Controller.Certificates.Names.{IsRequested, get_template-IsRequested}
use supernetes.Controller.Kubelet.Serving.{new_instance-get_template}
use supernetes.Controller.Certificates.Approval.{Settles, reconcile_csr-own, reconcile_csr-again}

abbrev node : Node
node = record {
  name = "n1";
  cpu_count = 4;
  mem_bytes = 1024;
  status = record { cpu_load = 0; ws_bytes = 0 };
}

abbrev environment : Environment String
environment = record {
  namespace = "system";
  service_account_name = "controller";
  address = some "10.0.0.1";
}

abbrev instance_of_node : Instance
instance_of_node = new_instance (λ a. a) node environment false

abbrev accepted : KubeNode → Option String
accepted n = none

abbrev pods_up : Run
pods_up = record (run none none instance_of_node) {
  pods = record (run none none instance_of_node).pods { ready = true };
}

abbrev server_up : Run
server_up = record (start_server pods_up) { server = some 10250 }

abbrev node_up : Run
node_up =
    let r : Run = start_node (with_port 10250 server_up) in
    record r { node = record r.node { ready = true } }

abbrev marked : Run
marked = mark_ready "context canceled" accepted 7 node_up

run-IsMarked_example : (marked.updates ≡ []) ⊎ IsMarked "context canceled" accepted 7 marked
unfolding run fresh start_pods start_server start_node with_port select wait_pods wait_server
    wait_node contains_part new_instance
run-IsMarked_example =
    run-IsMarked "context canceled" accepted 7 none none instance_of_node marked (
      next
        (next
          (next
            (next (next (next here (pods_ready _)) (takes ready refl))
              (server_ready _ 10250 refl refl))
            (takes ready refl))
          (node_ready _ refl))
        (takes ready refl))

abbrev calls : Calls
calls = record {
  listen = listening 10250;
  new_manager = none;
  certificate = some "timeout";
  vk_auth = none;
  serve_tls = server_closed;
}

run_server-held_example : held (run_server false calls).1 nothing ≡ nothing
run_server-held_example = (run_server-held false calls).0

-- an API server with one request, which it finds under the name of that request
abbrev request : Csr
request = record {
  name = "csr-1";
  signer_name = kubelet_serving_signer_name;
  username = "system:serviceaccount:system:controller";
  conditions = [];
}

get : Csr → String → Answer
get s name = if s.name == name then found s else not_found

update_approval : Csr → Csr → Csr × Option String
update_approval s csr = (csr, none)

get_by :
    (b : Bool) (s csr : Csr)
    → (if b then found s else not_found) ≡ found csr
    → (b ≡ true) × (s ≡ csr)
get_by true s csr e = (refl, cc e)
get_by false s csr e = absurd (cc e)

stores : (s s' csr : Csr) → update_approval s csr ≡ (s', none) → get s' csr.name ≡ found csr
unfolding get update_approval
stores s s' csr e =
    subst (λ t. get t csr.name ≡ found csr) (ap (λ t. t.0) e) (rw (beq_refl csr.name) refl)

named : (s : Csr) (name : String) (csr : Csr) → get s name ≡ found csr → csr.name ≡ name
unfolding get
named s name csr e =
    let (y, same) = get_by (s.name == name) s csr e in
    ap (λ c. c.name) (sym same) ∙ (string_eq.test_iff s.name name).0 y

abbrev answered : Csr × Option String
answered =
    reconcile_csr get update_approval 3 "system:serviceaccount:system:controller" "csr-1" request

reconcile_csr-own_example :
    Settles get update_approval stores named 3 "csr-1" request request answered.0
unfolding get update_approval reconcile_csr handle is_approved approve approved_in
reconcile_csr-own_example =
    (reconcile_csr-own get update_approval stores named 3 "system:serviceaccount:system:controller"
        "csr-1" request answered.0 request refl refl).1
      refl

reconcile_csr-again_example :
    reconcile_csr get update_approval 4 "system:serviceaccount:system:controller" "csr-1" answered.0
    ≡ (answered.0, none)
unfolding get update_approval reconcile_csr handle is_approved approve approved_in
reconcile_csr-again_example =
    reconcile_csr-again get update_approval stores named 3 4
      "system:serviceaccount:system:controller" "csr-1" request answered.0 refl

abbrev parse_ip : String → Option String
parse_ip address = if address == "10.0.0.1" then some address else none

new_instance-get_template_example :
    (instance_of_node.enable_kubelet_server ≡ true)
    × (t : CertificateRequest String) × (get_template parse_ip
          (λ names. names)
          (λ ips. ips)
          "n1"
          instance_of_node.node_spec.addresses
        ≡ some t)
unfolding address_of
new_instance-get_template_example =
    new_instance-get_template (λ a. a) parse_ip (λ names. names) (λ ips. ips) (λ n xs. refl)
      (λ xs. refl) node environment false "10.0.0.1" "10.0.0.1" refl refl (λ e. absurd (cc e))

get_template-IsRequested_example :
    IsRequested parse_ip
      (λ names. names)
      (λ ips. ips)
      (λ n xs. refl)
      (λ xs. refl)
      instance_of_node.node_spec.addresses
      (get_template parse_ip
        (λ names. names)
        (λ ips. ips)
        "n1"
        instance_of_node.node_spec.addresses)
get_template-IsRequested_example =
    get_template-IsRequested parse_ip (λ names. names) (λ ips. ips) (λ n xs. refl) (λ xs. refl) "n1"
      instance_of_node.node_spec.addresses
