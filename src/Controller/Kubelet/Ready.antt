-- ===== src/Controller/Kubelet/Ready.antt =====
-- setReady: which conditions of a node change, and which addresses an instance has.
use supernetes.Prelude.{
  ℕ, List, [], ◌∷◌, Bool, true, ◌≡◌, refl, if◌then◌else◌, ◌==◌, string_eq, arith,
}
use supernetes.Controller.Kubelet.{
  NodeCondition, NodePhase, KubeNode, now_ready, ready_conditions, set_ready,
}

-- the conditions of the type `Ready` that hold
abbrev pub ready_of : List NodeCondition → List Bool
ready_of [] = []
ready_of (c ∷ cs) = if c.kind == "Ready" then c.status ∷ ready_of cs else ready_of cs

abbrev pub others_of : List NodeCondition → List NodeCondition
others_of [] = []
others_of (c ∷ cs) = if c.kind == "Ready" then others_of cs else c ∷ others_of cs

abbrev pub first_true : List Bool → List Bool
first_true [] = []
first_true (b ∷ bs) = true ∷ bs

ready_conditions-ready :
    (now : ℕ) (cs : List NodeCondition)
    → (ready_of (ready_conditions now cs) ≡ first_true (ready_of cs))
      × (others_of (ready_conditions now cs) ≡ others_of cs)
unfolding ready_conditions now_ready
ready_conditions-ready now [] = (refl, refl)
ready_conditions-ready now (c ∷ cs) = ground (arith, ready_conditions-ready now cs)

-- setReady puts the node into the phase Running and makes the first condition of the type `Ready`
-- true. Every condition of another type stays as it is, in order.
set_ready-conditions :
    (now : ℕ) (n : KubeNode)
    → ((set_ready now n).phase ≡ NodePhase.running)
      × (ready_of (set_ready now n).conditions ≡ first_true (ready_of n.conditions))
      × (others_of (set_ready now n).conditions ≡ others_of n.conditions)
unfolding set_ready
set_ready-conditions now n =
    (refl, (ready_conditions-ready now n.conditions).0, (ready_conditions-ready now n.conditions).1)
