-- ===== src/Controller/Certificates/Approval.antt =====
-- approver.Reconcile: which requests are approved, and how often.
use supernetes.Prelude.{
  ℕ, String, List, [], ◌∷◌, ◌++◌, not, Bool, true, false, ◌≡◌, refl, sym, ap, ◌∙◌, subst, Option,
  none, some, if◌then◌else◌, ◌==◌, ◌||◌, ◌&&◌, string_eq, arith, Bool-cases, inl, inr,
}
use supernetes.Controller.Environment.{
  controller_namespace, controller_service_account_name, load, load_string, or_empty, given,
  namespace_of, service_account_of,
}
use supernetes.Controller.Certificates.{
  Condition, Csr, kubelet_serving_signer_name, approval, approve, approved_in, is_approved, Answer,
  found, not_found, failed, handle, reconcile_csr, account_name, get_service_account,
}

-- a request of the controller for the serving certificate of a Kubelet
abbrev pub is_own : String → Csr → Bool
is_own service_account csr =
    (csr.signer_name == kubelet_serving_signer_name) && (csr.username == service_account)

approved_in-append : (now : ℕ) (cs : List Condition) → approved_in (cs ++ approval now ∷ []) ≡ true
unfolding approved_in approval
approved_in-append now [] = refl
approved_in-append now (c ∷ cs) = ground (arith, approved_in-append now cs)

is_approved-approve : (now : ℕ) (csr : Csr) → is_approved (approve now csr) ≡ true
unfolding is_approved approve
is_approved-approve now csr = approved_in-append now csr.conditions

-- `stores` and `named` are what the API server promises: a request that was updated is read back as
-- it was written, and a request is found under its own name.
module _ {S : Type 0} (get : S → String → Answer) (update_approval : S → Csr → S × Option String)
    (stores : (s s' : S) (csr : Csr)
      → update_approval s csr ≡ (s', none)
      → get s' csr.name ≡ found csr)
    (named : (s : S) (name : String) (csr : Csr) → get s name ≡ found csr → csr.name ≡ name) where
  abbrev reconcile : ℕ → String → String → S → S × Option String
  reconcile = reconcile_csr get update_approval

  handle-found :
      (now : ℕ) (account : String) (s : S) (csr : Csr)
      → handle get update_approval now account s (found csr) ≡ (
          if is_own account csr
          then if is_approved csr then (s, none) else update_approval s (approve now csr)
          else (s, none))
  unfolding handle
  handle-found now account s csr = ground arith

  -- the request that a successful call leaves under its name
  abbrev pub Settles : ℕ → String → S → Csr → S → Type 0
  Settles now name s csr s' =
      (csr' : Csr) × (get s' name ≡ found csr')
      × (is_approved csr' ≡ true)
      × (csr' ≡ (if is_approved csr then csr else approve now csr))

  settled :
      (now : ℕ) (name : String) (s s' : S) (csr : Csr) (own approved : Bool)
      → get s name ≡ found csr
      → is_approved csr ≡ approved
      → (if own
          then if approved then (s, none) else update_approval s (approve now csr)
          else (s, none))
        ≡ (s', none)
      → (own ≡ false → s' ≡ s) × (own ≡ true → Settles now name s csr s')
  unfolding approve
  settled now name s s' csr false approved there same e =
      (λ n. sym (ap (λ t. t.0) e), λ y. absurd (cc y))
  settled now name s s' csr true true there same e = (
    λ n. absurd (cc n),
    λ y. (csr, subst (λ t. get t name ≡ found csr) (ap (λ t. t.0) e) there, same, rw same refl),
  )
  settled now name s s' csr true false there same e = (
    λ n. absurd (cc n),
    λ y. (
      approve now csr,
      rw (← named s name csr there) (stores s s' (approve now csr) e),
      is_approved-approve now csr,
      rw same refl,
    ),
  )

  -- A call of Reconcile that succeeds for a request that is found: a request of another signer or
  -- another user is not touched, and one of the controller's own is approved afterwards, by one
  -- condition more unless it was approved before. The API server stores what it accepts, and finds
  -- a request under its own name.
  pub reconcile_csr-own :
      (now : ℕ) (account name : String) (s s' : S) (csr : Csr)
      → get s name ≡ found csr
      → reconcile now account name s ≡ (s', none)
      → (is_own account csr ≡ false → s' ≡ s)
        × (is_own account csr ≡ true → Settles now name s csr s')
  unfolding reconcile_csr
  reconcile_csr-own now account name s s' csr there done =
      settled now name s s' csr (is_own account csr) (is_approved csr) there refl (
        sym (handle-found now account s csr)
        ∙ ap (handle get update_approval now account s) (sym there)
        ∙ done)

  -- a state in which nothing is left to do
  still :
      (now : ℕ) (account name : String) (s : S) (csr : Csr)
      → get s name ≡ found csr
      → (is_own account csr && not (is_approved csr)) ≡ false
      → reconcile now account name s ≡ (s, none)
  unfolding reconcile_csr
  still now account name s csr there h =
      ap (handle get update_approval now account s) there
      ∙ handle-found now account s csr
      ∙ ground (arith, h)

  again :
      (now now' : ℕ) (account name : String) (s s' : S) (a : Answer)
      → get s name ≡ a
      → handle get update_approval now account s a ≡ (s', none)
      → reconcile now' account name s' ≡ (s', none)
  unfolding reconcile_csr handle approve
  again now now' account name s s' not_found there e =
      subst (λ t. reconcile now' account name t ≡ (t, none)) (ap (λ t. t.0) e) (rw there refl)
  again now now' account name s s' (failed err) there e = absurd (cc (ap (λ t. t.1) e))
  again now now' account name s s' (found csr) there e =
      let (others, own) =
        reconcile_csr-own now account name s s' csr there
          (ap (handle get update_approval now account s) there ∙ e) in
      elim (Bool-cases (is_own account csr)) [
        | inl y ↦
            let (csr', there', approved, from) = own y in
            still now' account name s' csr' there' (rw approved (ground arith))
        | inr n ↦
            subst (λ t. reconcile now' account name t ≡ (t, none)) (sym (others n))
              (still now' account name s csr there (rw n refl))
      ]

  -- Reconcile is idempotent: after a call that succeeds, a further call changes nothing. The API
  -- server stores what it accepts, and finds a request under its own name.
  pub reconcile_csr-again :
      (now now' : ℕ) (account name : String) (s s' : S)
      → reconcile now account name s ≡ (s', none)
      → reconcile now' account name s' ≡ (s', none)
  unfolding reconcile_csr
  reconcile_csr-again now now' account name s s' done =
      again now now' account name s s' (get s name) refl done

module _ (getenv : String → String) where
  given-load :
      (name : String)
      → given (or_empty (load_string getenv name))
        ≡ (if getenv name == "" then none else some (getenv name))
  unfolding given or_empty load_string
  given-load name = elim (Bool-cases (getenv name == "")) [
    | inl y ↦ rw (y, load_string) refl
    | inr n ↦ rw (n, load_string) (rw (n, load_string) refl)
  ]

-- The service account is known exactly if the environment gives both its namespace and its name.
get_service_account-load :
    {A : Type 0} (parse_addr : String → Option A) (getenv : String → String)
    → get_service_account (load parse_addr getenv) ≡ (
        if (getenv controller_namespace == "") || (getenv controller_service_account_name == "")
        then none
        else some
            (account_name (getenv controller_namespace) (getenv controller_service_account_name)))
unfolding get_service_account load namespace_of service_account_of
get_service_account-load parse_addr getenv = ground (
  arith,
  given-load getenv controller_namespace,
  given-load getenv controller_service_account_name,
)
