-- ===== src/Controller/Nodes/Tracking.antt =====
-- reconciler.go of the nodes: which instances a reconciliation keeps.
use supernetes.Prelude.{
  String, List, [], ◌∷◌, ◌++◌, Bool, true, false, ◌≡◌, refl, ◌||◌, Option, none, some, map, ◌==◌,
  string_eq, contains, arith, beq-cases, Bool-cases, inl, inr, ap, ◌∙◌,
}
use supernetes.Prelude.Dict.{lookup, has, lookup-insert, IsDistinct, insert-IsDistinct}
use supernetes.Prelude.Streams.{Stream, eof, broken, message, messages}
use supernetes.Controller.Nodes.{
  Node, Instance, Instances, untrack_all, seen, receive_node, receive, settle, settle_all,
  keep_tracked, drop_tracked, Outcome, reconcile,
}

-- the names that the agent reported
abbrev pub reported : Stream Node → List String
reported stream = map (λ node. node.name) (messages stream)

-- whether a name has a tracked instance
unfoldable pub is_tracked : String → Instances → Bool
unfolding lookup
is_tracked name instances = elim (lookup name instances) [ none ↦ false | some i ↦ i.tracked ]

is_tracked-untrack_all : (name : String) (d : Instances) → is_tracked name (untrack_all d) ≡ false
unfolding is_tracked untrack_all
is_tracked-untrack_all name [] = refl
is_tracked-untrack_all name ((j, i) ∷ d) = ground (arith, is_tracked-untrack_all name d)

tracked-seen : (node : Node) (o : Option Instance) → (seen node o).tracked ≡ true
unfolding seen
tracked-seen node none = refl
tracked-seen node (some i) = refl

is_tracked-receive_node :
    (name : String) (node : Node) (d : Instances)
    → is_tracked name (receive_node node d) ≡ (node.name == name || is_tracked name d)
unfolding is_tracked receive_node
is_tracked-receive_node name node d =
    let i = seen node (lookup node.name d) in
    ground (
      arith,
      lookup-insert node.name name (record i { statuses = i.statuses ++ node.status ∷ [] }) d,
      tracked-seen node (lookup node.name d),
    )

is_tracked-receive :
    (name : String) (s : Stream Node) (d : Instances)
    → is_tracked name (receive s d).1 ≡ (contains name (reported s) || is_tracked name d)
unfolding receive messages contains
is_tracked-receive name eof d = refl
is_tracked-receive name broken d = refl
is_tracked-receive name (message node s) d =
    ground
      (arith, is_tracked-receive name s (receive_node node d), is_tracked-receive_node name node d)

pub tracked-settle : (over : Bool) (i : Instance) → (settle over i).tracked ≡ i.tracked
unfolding settle
tracked-settle over i = ground arith

is_tracked-settle_all :
    (over : Bool) (name : String) (d : Instances)
    → is_tracked name (settle_all over d) ≡ is_tracked name d
unfolding is_tracked settle_all
is_tracked-settle_all over name [] = refl
is_tracked-settle_all over name ((j, i) ∷ d) =
    ground (arith, is_tracked-settle_all over name d, tracked-settle over i)

-- The maps keep their keys apart.
lookup-untrack_all-none :
    (name : String) (d : Instances) → lookup name d ≡ none → lookup name (untrack_all d) ≡ none
unfolding lookup untrack_all
lookup-untrack_all-none name [] h = refl
lookup-untrack_all-none name ((j, i) ∷ d) h = ground (arith, lookup-untrack_all-none name d)

lookup-settle_all-none :
    (over : Bool) (name : String) (d : Instances)
    → lookup name d ≡ none
    → lookup name (settle_all over d) ≡ none
unfolding lookup settle_all
lookup-settle_all-none over name [] h = refl
lookup-settle_all-none over name ((j, i) ∷ d) h = ground (arith, lookup-settle_all-none over name d)

pub lookup-keep_tracked-none :
    (name : String) (d : Instances) → lookup name d ≡ none → lookup name (keep_tracked d) ≡ none
unfolding lookup keep_tracked
lookup-keep_tracked-none name [] h = refl
lookup-keep_tracked-none name ((j, i) ∷ d) h = ground (arith, lookup-keep_tracked-none name d)

untrack_all-IsDistinct : (d : Instances) → IsDistinct d → IsDistinct (untrack_all d)
unfolding untrack_all
untrack_all-IsDistinct [] h = tt
untrack_all-IsDistinct ((j, i) ∷ d) h =
    (lookup-untrack_all-none j d h.0, untrack_all-IsDistinct d h.1)

settle_all-IsDistinct :
    (over : Bool) (d : Instances) → IsDistinct d → IsDistinct (settle_all over d)
unfolding settle_all
settle_all-IsDistinct over [] h = tt
settle_all-IsDistinct over ((j, i) ∷ d) h =
    (lookup-settle_all-none over j d h.0, settle_all-IsDistinct over d h.1)

receive-IsDistinct : (s : Stream Node) (d : Instances) → IsDistinct d → IsDistinct (receive s d).1
unfolding receive receive_node
receive-IsDistinct eof d h = h
receive-IsDistinct broken d h = h
receive-IsDistinct (message node s) d h =
    let i = seen node (lookup node.name d) in
    receive-IsDistinct s (receive_node node d)
      (insert-IsDistinct node.name (record i { statuses = i.statuses ++ node.status ∷ [] }) d h)

keep_tracked-IsDistinct : (d : Instances) → IsDistinct d → IsDistinct (keep_tracked d)
unfolding keep_tracked
keep_tracked-IsDistinct [] h = tt
keep_tracked-IsDistinct ((j, i) ∷ d) h = elim (Bool-cases i.tracked) [
  | inl y ↦ rw (y, keep_tracked) (lookup-keep_tracked-none j d h.0, keep_tracked-IsDistinct d h.1)
  | inr n ↦ rw (n, keep_tracked) (keep_tracked-IsDistinct d h.1)
]

has-keep_tracked :
    (name : String) (d : Instances) → IsDistinct d → has name (keep_tracked d) ≡ is_tracked name d
unfolding has is_tracked keep_tracked
has-keep_tracked name [] h = refl
has-keep_tracked name ((j, i) ∷ d) h = ground (
  arith,
  has-keep_tracked name d h.1,
  beq-cases j name,
  lookup-keep_tracked-none j d h.0,
  lookup-keep_tracked-none name d,
)

-- the instances after the start and stop round
abbrev pub settled : Bool → Stream Node → Instances → Instances
settled over stream d = settle_all over (receive stream (untrack_all d)).1

pub reconcile-ok :
    (over : Bool) (stream : Stream Node) (d : Instances)
    → (receive stream (untrack_all d)).0 ≡ true
    → reconcile over (some stream) d ≡ record {
      success = true;
      instances = keep_tracked (settled over stream d);
      dropped = drop_tracked (settled over stream d);
    }
reconcile-ok over stream d h = unfold reconcile in rw h

pub reconcile-broken :
    (over : Bool) (stream : Stream Node) (d : Instances)
    → (receive stream (untrack_all d)).0 ≡ false
    → reconcile over (some stream) d
      ≡ record { success = false; instances = (receive stream (untrack_all d)).1; dropped = [] }
reconcile-broken over stream d h = unfold reconcile in rw h

pub received_of_success :
    (over : Bool) (stream : Stream Node) (d : Instances)
    → (reconcile over (some stream) d).success ≡ true
    → (receive stream (untrack_all d)).0 ≡ true
received_of_success over stream d h = elim (Bool-cases (receive stream (untrack_all d)).0) [
  | inl y ↦ y
  | inr n ↦ cc (h, ap (λ (o : Outcome). o.success) (reconcile-broken over stream d n))
]

pub settled-IsDistinct :
    (over : Bool) (stream : Stream Node) (d : Instances)
    → IsDistinct d
    → IsDistinct (settled over stream d)
settled-IsDistinct over stream d h =
    settle_all-IsDistinct over (receive stream (untrack_all d)).1
      (receive-IsDistinct stream (untrack_all d) (untrack_all-IsDistinct d h))

is_tracked-settled :
    (over : Bool) (name : String) (stream : Stream Node) (d : Instances)
    → is_tracked name (settled over stream d) ≡ contains name (reported stream)
is_tracked-settled over name stream d = ground (
  arith,
  is_tracked-settle_all over name (receive stream (untrack_all d)).1,
  is_tracked-receive name stream (untrack_all d),
  is_tracked-untrack_all name d,
)

-- When the agent's node stream ends without an error, there is an instance for a name after the
-- reconciliation exactly if the agent reported a node of that name. The keys of the map are
-- distinct, and stay so.
pub has-reconcile :
    (over : Bool) (stream : Stream Node) (d : Instances) (name : String)
    → IsDistinct d
    → (reconcile over (some stream) d).success ≡ true
    → (has name (reconcile over (some stream) d).instances ≡ contains name (reported stream))
      × IsDistinct (reconcile over (some stream) d).instances
has-reconcile over stream d name distinct success =
    rw (reconcile-ok over stream d (received_of_success over stream d success)) (
      has-keep_tracked name (settled over stream d) (settled-IsDistinct over stream d distinct)
          ∙ is_tracked-settled over name stream d,
      keep_tracked-IsDistinct (settled over stream d) (settled-IsDistinct over stream d distinct),
    )
