-- ===== src/Controller/Workloads/Reconciler/Collection.antt =====
-- What a reconciliation of the workloads keeps, and what it has deleted.
use supernetes.Prelude.{
  List, [], ◌∷◌, ◌++◌, ◌≡◌, ◌≢◌, ◌↔◌, refl, sym, append_assoc, append-nil, ap, ◌∙◌, false, Option,
  none, some, map, ◌⊎◌, inl, inr, Option-cases, All-append,
}
use supernetes.Prelude.Streams.{Stream, eof, broken, message}
use supernetes.Api.{Workload}
use supernetes.Kube.{Pod}
use supernetes.Controller.Inventory.{
  Inventory, Change, Stale, Objects, ObjMetadata, change_ref, add_change_set, populate, diff,
}
use supernetes.Controller.Inventory.Difference.{IsIn, IsParsed, IsDiffing, stale_key, diff-IsIn}
use supernetes.Controller.Workloads.{convert_to_pods}
use supernetes.Controller.Workloads.Reconciler.{
  settle_changes, Services, End, Outcome, to_unstructured, apply_workload, receive, collect,
  reconcile_with, reconcile_populated, reconcile,
}

End-cases : (e : End) → (e ≡ End.done) ⊎ (e ≡ End.failed) ⊎ (e ≡ End.panicked)
End-cases End.done = inl refl
End-cases End.failed = inr (inl refl)
End-cases End.panicked = inr (inr refl)

map-append :
    (o : Objects) (xs ys : List Change)
    → map (change_ref o) (xs ++ ys) ≡ map (change_ref o) xs ++ map (change_ref o) ys
map-append o [] ys = refl
map-append o (x ∷ xs) ys = ap (λ r. change_ref o x ∷ r) (map-append o xs ys)

-- The metadata of every applied object can be parsed back from its text.
abbrev pub IsParsing : {K Object : Type 0} → Services K Object → Objects → Type 0
IsParsing {K = K} {Object = Object} s o =
    (objects : List Object) (k : K) (changes : List Change)
    → (s.apply_all objects k).1 ≡ some changes
    → IsParsed o changes

module _ {K Object : Type 0} (s : Services K Object) (o : Objects) where
  -- the state that a round leaves, and the changes that ApplyAll reports in it
  unfoldable pub round_of : Workload → K → K × List Change
  round_of workload k = elim (convert_to_pods s.pod_kinds workload) [
    | none ↦ (k, [])
    | some pods ↦ elim (to_unstructured s pods) [
      | none ↦ (k, [])
      | some objects ↦ elim ((s.apply_all objects k).1) [
        | none ↦ ((s.apply_all objects k).0, [])
        | some changes ↦ ((settle_changes s pods 0 changes (s.apply_all objects k).0).0, changes)
      ]
    ]
  ]

  -- all the changes that ApplyAll reports for the workloads of a stream
  unfoldable pub applied : Stream Workload → K → List Change
  unfolding round_of
  applied eof k = []
  applied broken k = []
  applied (message workload stream) k =
      (round_of workload k).1 ++ applied stream (round_of workload k).0

  apply_workload-round_of :
      (workload : Workload) (inventory : Inventory) (k : K)
      → ((apply_workload s o workload inventory k).inventory
          ≡ inventory ++ map (change_ref o) (round_of workload k).1)
        × ((apply_workload s o workload inventory k).state ≡ (round_of workload k).0)
  unfolding apply_workload add_change_set round_of
  apply_workload-round_of workload inventory k =
      elim (Option-cases (convert_to_pods s.pod_kinds workload)) [
        | inl e ↦ rw (e, apply_workload, round_of) (sym (append-nil inventory), refl)
        | inr (pods, e) ↦ elim (Option-cases (to_unstructured s pods)) [
          | inl f ↦ rw (e, f, apply_workload, round_of) (sym (append-nil inventory), refl)
          | inr (objects, f) ↦ elim (Option-cases ((s.apply_all objects k).1)) [
            | inl g ↦ rw (e, f, g, apply_workload, round_of) (sym (append-nil inventory), refl)
            | inr (changes, g) ↦ rw (e, f, g, apply_workload, round_of) (refl, refl)
          ]
        ]
      ]

  round_of-IsParsed :
      (workload : Workload) (k : K) → IsParsing s o → IsParsed o (round_of workload k).1
  unfolding round_of
  round_of-IsParsed workload k parsing =
      elim (Option-cases (convert_to_pods s.pod_kinds workload)) [
        | inl e ↦ rw (e, round_of) tt
        | inr (pods, e) ↦ elim (Option-cases (to_unstructured s pods)) [
          | inl f ↦ rw (e, f, round_of) tt
          | inr (objects, f) ↦ elim (Option-cases ((s.apply_all objects k).1)) [
            | inl g ↦ rw (e, f, g, round_of) tt
            | inr (changes, g) ↦ rw (e, f, g, round_of) (parsing objects k changes g)
          ]
        ]
      ]

  applied-IsParsed :
      (stream : Stream Workload) (k : K) → IsParsing s o → IsParsed o (applied stream k)
  unfolding applied
  applied-IsParsed eof k parsing = tt
  applied-IsParsed broken k parsing = tt
  applied-IsParsed (message workload stream) k parsing =
      All-append _ (round_of workload k).1 (applied stream (round_of workload k).0)
        (round_of-IsParsed workload k parsing)
        (applied-IsParsed stream (round_of workload k).0 parsing)

  -- a receive loop that ends without an error
  receive-applied :
      (stream : Stream Workload) (inventory : Inventory) (k : K)
      → (receive s o stream inventory k).ending ≡ End.done
      → (receive s o stream inventory k).inventory
        ≡ inventory ++ map (change_ref o) (applied stream k)
  unfolding receive applied
  receive-applied eof inventory k = λ done. sym (append-nil inventory)
  receive-applied broken inventory k = λ done. absurd (cc done)
  receive-applied (message workload stream) inventory k =
      let round = apply_workload s o workload inventory k in
      let (found, state) = apply_workload-round_of workload inventory k in
      elim (End-cases round.ending) [
        | inl e ↦
            rw (e, receive)
              λ done.
                receive-applied stream round.inventory round.state done
                ∙ ap (λ i. i ++ map (change_ref o) (applied stream round.state)) found
                ∙ ap
                    (λ l.
                      (inventory ++ map (change_ref o) (round_of workload k).1)
                      ++ map (change_ref o) (applied stream l))
                    state
                ∙ append_assoc inventory (map (change_ref o) (round_of workload k).1)
                    (map (change_ref o) (applied stream (round_of workload k).0))
                ∙ ap (λ t. inventory ++ t)
                    (sym (
                      map-append o (round_of workload k).1
                        (applied stream (round_of workload k).0)))
        | inr (inl e) ↦ rw (e, receive) λ done. absurd (cc (e, done))
        | inr (inr e) ↦ rw (e, receive) λ done. absurd (cc (e, done))
      ]

  -- how the outcome follows from what DeleteAll returns
  abbrev pub deleted : Inventory → Inventory → K × Option (List Change) → Outcome K
  deleted current new (k, none) = record {
    state = k;
    inventory = some current;
    ending = End.failed;
  }
  deleted current new (k, some changes) = record {
    state = k;
    inventory = some new;
    ending = End.done;
  }

  collect-deleted :
      (current new : Inventory) (k : K) (stale : List Stale)
      → diff o current new ≡ some stale
      → collect s o current new k ≡ deleted current new (s.delete_all stale k)
  unfolding collect
  collect-deleted current new k stale h = rw (h, collect) (of_changes (s.delete_all stale k))
    where
      of_changes :
          (r : K × Option (List Change))
          → elim r.1 [
            | none ↦ record { state = r.0; inventory = some current; ending = End.failed }
            | some changes ↦ record { state = r.0; inventory = some new; ending = End.done }
          ]
            ≡ deleted current new r
      of_changes (k, none) = refl
      of_changes (k, some changes) = refl

  -- A reconciliation whose receive loop ends without an error deletes exactly the objects that
  -- were applied when its inventory was filled and that ApplyAll did not report as applied this
  -- time, for any of the workloads received. The new inventory holds what was reported this time,
  -- and it replaces the old one if the deletion succeeds. It relies on the object package: the
  -- texts of the metadata of applied objects can be parsed back, and its Diff is the difference of
  -- sets.
  pub reconcile-garbage :
      (stream : Stream Workload) (k : K) (old : List Change)
      → IsParsed o old
      → IsParsing s o
      → IsDiffing o
      → (receive s o stream [] k).ending ≡ End.done
      → (stale : List Stale) × ((m : ObjMetadata)
          → IsIn m (map stale_key stale) ↔ (
              IsIn m (map (λ c. c.metadata) old)
              × ¬ IsIn m (map (λ c. c.metadata) (applied stream k))))
        × (reconcile s o (some stream) (some (map (change_ref o) old)) k
            ≡ deleted
                (map (change_ref o) old)
                (map (change_ref o) (applied stream k))
                (s.delete_all stale (receive s o stream [] k).state))
  unfolding reconcile reconcile_with add_change_set
  reconcile-garbage stream k old parsed parsing diffing done =
      let at_new = receive-applied stream [] k done in
      let (stale, found, exact) =
        diff-IsIn o old (applied stream k) parsed (applied-IsParsed stream k parsing) diffing in
      (
        stale,
        exact,
        rw (done, reconcile_with)
            (ap (λ i. collect s o (map (change_ref o) old) i (receive s o stream [] k).state) at_new
              ∙ collect-deleted _ _ _ stale found),
      )

  -- the outcome of a call that fails keeps the inventory
  collect-keeps :
      (current new : Inventory) (k : K)
      → (collect s o current new k).ending ≢ End.done
      → (collect s o current new k).inventory ≡ some current
  unfolding collect
  collect-keeps current new k h = elim (Option-cases (diff o current new)) [
    | inl e ↦ rw (e, collect) refl
    | inr (stale, e) ↦ elim (Option-cases ((s.delete_all stale k).1)) [
      | inl f ↦ rw (e, f, collect) refl
      | inr (changes, f) ↦ absurd (h (rw (e, f, collect) refl))
    ]
  ]

  -- A reconciliation that does not succeed leaves the inventory that the reconciler had, so the
  -- next one still finds the objects that have become stale.
  reconcile-inventory :
      (stream : Option (Stream Workload)) (current : Inventory) (k : K)
      → (reconcile s o stream (some current) k).ending ≢ End.done
      → (reconcile s o stream (some current) k).inventory ≡ some current
  unfolding reconcile reconcile_with
  reconcile-inventory none current k h = refl
  reconcile-inventory (some stream) current k h =
      let round = receive s o stream [] k in
      elim (End-cases round.ending) [
        | inl e ↦
            rw (e, reconcile_with)
              (collect-keeps current round.inventory round.state
                (λ done. h (rw (e, reconcile_with) done)))
        | inr (inl e) ↦ rw (e, reconcile_with) refl
        | inr (inr e) ↦ rw (e, reconcile_with) refl
      ]

  populate_failed : (pods : Option (List Pod)) → pods ≡ none → populate o [] pods ≡ ([], false)
  unfolding populate
  populate_failed pods h = rw (h, populate) refl

  -- If the pods of the cluster cannot be listed when the reconciler starts, it keeps an empty
  -- inventory, and later reconciliations do not list them again.
  reconcile_after_failed_list :
      (stream : Stream Workload) (k : K)
      → s.list_untracked k ≡ none
      → ((reconcile s o (some stream) none k).ending ≡ End.failed)
        × ((later : Stream Workload) (k2 : K)
            → reconcile s o (some later) ((reconcile s o (some stream) none k).inventory) k2
              ≡ reconcile_with s o later [] k2)
  unfolding reconcile reconcile_populated
  reconcile_after_failed_list stream k h =
      let failed = ap (reconcile_populated s o stream k) (populate_failed (s.list_untracked k) h) in
      (
        ap (λ r. r.ending) failed,
        λ later k2. ap (λ r. reconcile s o (some later) r.inventory k2) failed,
      )
