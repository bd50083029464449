-- ===== src/Controller/Certificates.antt =====
-- controller/pkg/certificates/approver.go: the approval of the signing requests of the controller.
pub mod Approval
pub mod Template
pub mod Names
use supernetes.Prelude.{
  ℕ, String, List, [], ◌∷◌, ◌++◌, Bool, true, false, Option, none, some, if◌then◌else◌, ◌==◌, ◌||◌,
  string_eq,
}
use supernetes.Prelude.Texts
use supernetes.Controller.Environment.{Environment, namespace_of, service_account_of}

-- `CertificateSigningRequestCondition`; its status is always true.
pub record Condition : Type 0 where
  pub kind : String
  pub reason : String
  pub message : String
  pub last_update_time : ℕ

-- `CertificateSigningRequest`, as far as the approver reads or writes it
pub record Csr : Type 0 where
  pub name : String
  pub signer_name : String
  pub username : String
  pub conditions : List Condition

-- certv1.KubeletServingSignerName and certv1.CertificateApproved
abbrev pub kubelet_serving_signer_name : String
kubelet_serving_signer_name = "kubernetes.io/kubelet-serving"

abbrev pub certificate_approved : String
certificate_approved = "Approved"

unfoldable pub approval : ℕ → Condition
approval now = record {
  kind = certificate_approved;
  reason = "Approved by Supernetes controller";
  message = "Auto-approving Supernetes node Kubelet serving certificate";
  last_update_time = now;
}

unfoldable pub approve : ℕ → Csr → Csr
unfolding approval
approve now csr = record csr { conditions = csr.conditions ++ approval now ∷ [] }

-- the loop of isApproved
unfoldable pub approved_in : List Condition → Bool
approved_in [] = false
approved_in (c ∷ cs) = c.kind == certificate_approved || approved_in cs

unfoldable pub is_approved : Csr → Bool
unfolding approved_in
is_approved csr = approved_in csr.conditions

-- what the API server answers to a Get
pub data Answer : Type 0 where
  found : Csr → Answer
  not_found : Answer
  failed : String → Answer

-- `S` is the state of the API server, `update_approval` its UpdateApproval.
module _ {S : Type 0} (get : S → String → Answer)
    (update_approval : S → Csr → S × Option String) where
  unfoldable pub handle : ℕ → String → S → Answer → S × Option String
  unfolding is_approved approve
  handle now service_account s not_found = (s, none)
  handle now service_account s (failed err) = (s, some err)
  handle now service_account s (found csr) =
      if csr.signer_name == kubelet_serving_signer_name
      then if csr.username == service_account
        then if is_approved csr then (s, none) else update_approval s (approve now csr)
        else (s, none)
      else (s, none)

  -- `Reconcile`: the state of the API server and the error
  unfoldable pub reconcile_csr : ℕ → String → String → S → S × Option String
  unfolding handle
  reconcile_csr now service_account name s = handle now service_account s (get s name)

-- the format `system:serviceaccount:%s:%s`
unfoldable pub account_name : String → String → String
account_name namespace name =
    Texts.◌++◌ "system:serviceaccount:" (Texts.◌++◌ namespace (Texts.◌++◌ ":" name))

-- `getServiceAccount`: the name, or nothing with an error
unfoldable pub get_service_account : {A : Type 0} → Environment A → Option String
unfolding namespace_of service_account_of account_name
get_service_account env = elim (namespace_of env) [
  | none ↦ none
  | some namespace ↦ elim (service_account_of env) [
    | none ↦ none
    | some name ↦ some (account_name namespace name)
  ]
]
