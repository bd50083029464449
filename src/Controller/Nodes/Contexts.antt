-- ===== src/Controller/Nodes/Contexts.antt =====
-- reconciler.go of the nodes: which instances run after a reconciliation.
use supernetes.Prelude.{
  Bool, ◌+◌, ◌==◌, ◌∙◌, ℕ, String, [], ◌∷◌, ◌++◌, true, false, ◌≡◌, refl, Option, none, some,
  string_eq, arith, Bool-cases, ◌⊎◌, inl, inr, ap, beq-cases, subst, sym,
}
use mathlib.Core.Option.{some-injective, none-ne-some}
use supernetes.Prelude.Dict.{lookup, lookup-insert, IsDistinct}
use supernetes.Prelude.Streams.{Stream, eof, broken, message}
use supernetes.Controller.Nodes.{
  Node, Instance, Instances, Context, derived, start, start_in, stop, stop_in, untrack_all, seen,
  receive_node, receive, settle, settle_all, keep_tracked, drop_tracked, reconcile, Outcome,
}
use supernetes.Controller.Nodes.Tracking.{
  tracked-settle, lookup-keep_tracked-none, settled-IsDistinct, settled, reconcile-ok,
  reconcile-broken, received_of_success,
}

abbrev pub activity_of : Option Instance → Option (Context × ℕ)
activity_of none = none
activity_of (some i) = some (i.context, i.runs)

-- the context and the goroutines of the instance of a name
abbrev pub activity : String → Instances → Option (Context × ℕ)
activity name d = activity_of (lookup name d)

activity-untrack_all :
    (name : String) (d : Instances) → activity name (untrack_all d) ≡ activity name d
unfolding lookup untrack_all
activity-untrack_all name [] = refl
activity-untrack_all name ((j, i) ∷ d) = ground (arith, activity-untrack_all name d)

abbrev pub Keeps : Option (Context × ℕ) → Option (Context × ℕ) → Type 0
Keeps none new = (new ≡ none) ⊎ (new ≡ some (Context.unset, 0))
Keeps (some a) new = new ≡ some a

Keeps-refl : (a : Option (Context × ℕ)) → Keeps a a
Keeps-refl none = inl refl
Keeps-refl (some a) = refl

seen-Keeps :
    (node : Node) (o : Option Instance)
    → Keeps (activity_of o) (some ((seen node o).context, (seen node o).runs))
unfolding seen
seen-Keeps node none = inr refl
seen-Keeps node (some i) = refl

activity-receive_node :
    (name : String) (node : Node) (d : Instances)
    → Keeps (activity name d) (activity name (receive_node node d))
unfolding receive_node
activity-receive_node name node d =
    subst (λ o. Keeps (activity name d) (activity_of o))
      (sym (lookup-insert node.name name fresh d))
      (elim (beq-cases node.name name) [
        | inl (y, e) ↦ rw y (rw (← e) (seen-Keeps node (lookup node.name d)))
        | inr (n, _) ↦ rw n (Keeps-refl (activity name d))
      ])
  where
    fresh : Instance
    fresh = record (seen node (lookup node.name d)) {
      statuses = (seen node (lookup node.name d)).statuses ++ node.status ∷ [];
    }

Keeps-trans : (a b c : Option (Context × ℕ)) → Keeps a b → Keeps b c → Keeps a c
Keeps-trans none none c h k = k
Keeps-trans none (some b) c h k = ground arith
Keeps-trans (some a) none c h k = cc
Keeps-trans (some a) (some b) c h k = ground arith

activity-receive :
    (name : String) (s : Stream Node) (d : Instances)
    → Keeps (activity name d) (activity name (receive s d).1)
unfolding receive
activity-receive name eof d = Keeps-refl (activity name d)
activity-receive name broken d = Keeps-refl (activity name d)
activity-receive name (message node s) d =
    Keeps-trans (activity name d) (activity name (receive_node node d))
      (activity name (receive s (receive_node node d)).1) (activity-receive_node name node d)
      (activity-receive name s (receive_node node d))

-- what a context and its goroutines are after a start: they are left alone where the context was not
-- cancelled, and there is one goroutine more, and a context of the reconciler's, otherwise
abbrev pub started : Bool → Option (Context × ℕ) → Context × ℕ
started over none = (derived over, 1)
started over (some (Context.active, n)) = (Context.active, n)
started over (some (Context.unset, n)) = (derived over, n + 1)
started over (some (Context.cancelled, n)) = (derived over, n + 1)

-- what they are after a stop
abbrev pub stopped : Option (Context × ℕ) → Context × ℕ
stopped none = (Context.unset, 0)
stopped (some (Context.active, n)) = (Context.cancelled, n)
stopped (some (Context.unset, n)) = (Context.unset, n)
stopped (some (Context.cancelled, n)) = (Context.cancelled, n)

abbrev pub state_of : Instance → Context × ℕ
state_of i = (i.context, i.runs)

start-started :
    (over : Bool) (i : Instance) (c : Context)
    → i.context ≡ c
    → state_of (start over i) ≡ started over (some (state_of i))
unfolding start start_in
start-started over i Context.unset e = rw (e, start_in) refl
start-started over i Context.active e = rw (e, start_in) refl
start-started over i Context.cancelled e = rw (e, start_in) refl

stop-stopped :
    (i : Instance) (c : Context) → i.context ≡ c → state_of (stop i) ≡ stopped (some (state_of i))
unfolding stop stop_in
stop-stopped i Context.unset e = rw (e, stop_in) refl
stop-stopped i Context.active e = rw (e, stop_in) refl
stop-stopped i Context.cancelled e = rw (e, stop_in) refl

-- A new instance is like one that was never started.
Keeps-started :
    (over : Bool) (before : Option (Context × ℕ)) (a : Context × ℕ)
    → Keeps before (some a)
    → started over (some a) ≡ started over before
Keeps-started over none a (inl e) = absurd (none-ne-some _ (sym e))
Keeps-started over none a (inr e) =
    let one : 0 + 1 ≡ 1 = omega arith in ap (started over) e ∙ ap (λ n. (derived over, n)) one
Keeps-started over (some b) a e = ap (started over) e

Keeps-stopped :
    (before : Option (Context × ℕ)) (a : Context × ℕ)
    → Keeps before (some a)
    → stopped (some a) ≡ stopped before
Keeps-stopped none a (inl e) = absurd (none-ne-some _ (sym e))
Keeps-stopped none a (inr e) = ap stopped e
Keeps-stopped (some b) a e = ap stopped e

lookup-settle_all :
    (over : Bool) (name : String) (d : Instances) (i : Instance)
    → lookup name (settle_all over d) ≡ some i
    → (j : Instance) × (lookup name d ≡ some j) × (i ≡ settle over j)
unfolding lookup settle_all
lookup-settle_all over name [] i = λ e. absurd (none-ne-some _ e)
lookup-settle_all over name ((k, j) ∷ d) i = elim (Bool-cases (k == name)) [
  | inl y ↦ rw y λ e. (j, refl, sym (some-injective _ _ e))
  | inr n ↦ rw n λ e. lookup-settle_all over name d i e
]

lookup-keep_tracked :
    (name : String) (d : Instances) (i : Instance)
    → IsDistinct d
    → lookup name (keep_tracked d) ≡ some i
    → (lookup name d ≡ some i) × (i.tracked ≡ true)
unfolding lookup keep_tracked
lookup-keep_tracked name [] i h = λ e. absurd (none-ne-some _ e)
lookup-keep_tracked name ((k, j) ∷ d) i h = elim (beq-cases k name) [
  | inl (same, e) ↦ elim (Bool-cases j.tracked) [
    | inl y ↦
        rw (same, y, keep_tracked, same)
          λ found. (found, subst (λ t. t.tracked ≡ true) (some-injective _ _ found) refl)
    | inr n ↦
        let gone : lookup name (keep_tracked d) ≡ none =
          subst (λ l. lookup l (keep_tracked d) ≡ none) e (lookup-keep_tracked-none k d h.0) in
        rw (same, n, keep_tracked, gone) λ found. absurd (none-ne-some _ found)
  ]
  | inr (other, ne) ↦ elim (Bool-cases j.tracked) [
    | inl y ↦ rw (other, y, keep_tracked, other) λ found. lookup-keep_tracked name d i h.1 found
    | inr n ↦ rw (other, n, keep_tracked) λ found. lookup-keep_tracked name d i h.1 found
  ]
]

lookup-drop_tracked-none :
    (name : String) (d : Instances) → lookup name d ≡ none → lookup name (drop_tracked d) ≡ none
unfolding lookup drop_tracked
lookup-drop_tracked-none name [] h = refl
lookup-drop_tracked-none name ((j, i) ∷ d) h = ground (arith, lookup-drop_tracked-none name d)

lookup-drop_tracked :
    (name : String) (d : Instances) (i : Instance)
    → IsDistinct d
    → lookup name (drop_tracked d) ≡ some i
    → (lookup name d ≡ some i) × (i.tracked ≡ false)
unfolding lookup drop_tracked
lookup-drop_tracked name [] i h = λ e. absurd (none-ne-some _ e)
lookup-drop_tracked name ((k, j) ∷ d) i h = elim (beq-cases k name) [
  | inl (same, e) ↦ elim (Bool-cases j.tracked) [
    | inr y ↦
        rw (same, y, drop_tracked, same)
          λ found. (found, subst (λ t. t.tracked ≡ false) (some-injective _ _ found) refl)
    | inl n ↦
        let gone : lookup name (drop_tracked d) ≡ none =
          subst (λ l. lookup l (drop_tracked d) ≡ none) e (lookup-drop_tracked-none k d h.0) in
        rw (same, n, drop_tracked, gone) λ found. absurd (none-ne-some _ found)
  ]
  | inr (other, ne) ↦ elim (Bool-cases j.tracked) [
    | inl y ↦ rw (other, y, drop_tracked) λ found. lookup-drop_tracked name d i h.1 found
    | inr n ↦ rw (other, n, drop_tracked, other) λ found. lookup-drop_tracked name d i h.1 found
  ]
]

-- the context and goroutines of an instance before and after the receive loop
received-Keeps :
    (stream : Stream Node) (d : Instances) (name : String) (j : Instance)
    → lookup name (receive stream (untrack_all d)).1 ≡ some j
    → Keeps (activity name d) (some (state_of j))
received-Keeps stream d name j found =
    subst (λ o. Keeps (activity name d) (activity_of o)) found
      (subst (λ a. Keeps a (activity name (receive stream (untrack_all d)).1))
        (activity-untrack_all name d) (activity-receive name stream (untrack_all d)))

settle-tracked :
    (over : Bool) (j : Instance) → (settle over j).tracked ≡ true → settle over j ≡ start over j
unfolding settle
settle-tracked over j h = elim (Bool-cases j.tracked) [
  | inl y ↦ unfold settle in rw (y, settle) refl
  | inr n ↦ absurd (cc (h, tracked-settle over j, n))
]

settle-untracked :
    (over : Bool) (j : Instance) → (settle over j).tracked ≡ false → settle over j ≡ stop j
unfolding settle
settle-untracked over j h = elim (Bool-cases j.tracked) [
  | inr n ↦ unfold settle in rw (n, settle) refl
  | inl y ↦ absurd (cc (h, tracked-settle over j, y))
]

kept-started :
    (over : Bool) (stream : Stream Node) (d : Instances) (name : String) (i : Instance)
    → IsDistinct d
    → lookup name (keep_tracked (settled over stream d)) ≡ some i
    → state_of i ≡ started over (activity name d)
kept-started over stream d name i distinct found =
    let (at, tracked) =
      lookup-keep_tracked name (settled over stream d) i (settled-IsDistinct over stream d distinct)
        found in
    let (j, before, same) = lookup-settle_all over name (receive stream (untrack_all d)).1 i at in
    ap state_of (same ∙ settle-tracked over j (subst (λ t. t.tracked ≡ true) same tracked))
    ∙ start-started over j j.context refl
    ∙ Keeps-started over (activity name d) (state_of j) (received-Keeps stream d name j before)

dropped-stopped :
    (over : Bool) (stream : Stream Node) (d : Instances) (name : String) (i : Instance)
    → IsDistinct d
    → lookup name (drop_tracked (settled over stream d)) ≡ some i
    → state_of i ≡ stopped (activity name d)
dropped-stopped over stream d name i distinct found =
    let (at, tracked) =
      lookup-drop_tracked name (settled over stream d) i (settled-IsDistinct over stream d distinct)
        found in
    let (j, before, same) = lookup-settle_all over name (receive stream (untrack_all d)).1 i at in
    ap state_of (same ∙ settle-untracked over j (subst (λ t. t.tracked ≡ false) same tracked))
    ∙ stop-stopped j j.context refl
    ∙ Keeps-stopped (activity name d) (state_of j) (received-Keeps stream d name j before)

-- After a successful reconciliation, an instance that is kept has the context and the goroutines
-- it had where that context was not cancelled, and otherwise one goroutine more, with a new context
-- of the reconciler's own, which is cancelled exactly if that one is. One that is dropped has no
-- goroutine more, and its context, if it ever had one, is cancelled. The keys of the map are
-- distinct.
pub reconcile-contexts :
    (over : Bool) (stream : Stream Node) (d : Instances) (name : String) (i : Instance)
    → IsDistinct d
    → (reconcile over (some stream) d).success ≡ true
    → (lookup name (reconcile over (some stream) d).instances ≡ some i
        → state_of i ≡ started over (activity name d))
      × (lookup name (reconcile over (some stream) d).dropped ≡ some i
          → state_of i ≡ stopped (activity name d))
reconcile-contexts over stream d name i distinct success =
    rw (reconcile-ok over stream d (received_of_success over stream d success))
      (kept-started over stream d name i distinct, dropped-stopped over stream d name i distinct)

received_of_failure :
    (over : Bool) (stream : Stream Node) (d : Instances)
    → (reconcile over (some stream) d).success ≡ false
    → (receive stream (untrack_all d)).0 ≡ false
received_of_failure over stream d h = elim (Bool-cases (receive stream (untrack_all d)).0) [
  | inl y ↦ cc (h, ap (λ (o : Outcome). o.success) (reconcile-ok over stream d y))
  | inr n ↦ n
]

-- When the node stream breaks, no instance is dropped, started or stopped: one that was there is
-- there with the same context and goroutines, and a new one has not been started.
reconcile-fails :
    (over : Bool) (stream : Stream Node) (d : Instances) (name : String)
    → (reconcile over (some stream) d).success ≡ false
    → Keeps (activity name d) (activity name (reconcile over (some stream) d).instances)
      × ((reconcile over (some stream) d).dropped ≡ [])
reconcile-fails over stream d name failed =
    rw (reconcile-broken over stream d (received_of_failure over stream d failed))
      (rw (activity-untrack_all name d) at (activity-receive name stream (untrack_all d)), refl)
