-- ===== src/Provider/Conversion/Labels.antt =====
-- `getLabels` and `applyWorkloadMeta` of conversion.go: a scope is a prefix of the label keys.
use supernetes.Prelude.{
  String, [], ◌∷◌, ◌≡◌, ◌≢◌, refl, ◌∙◌, ap, sym, none, some, string_eq, Option-cases, first_some,
  inl, inr, arith, beq-cases,
}
use supernetes.Prelude.Dict.{Dict, lookup, insert, lookup-insert, IsDistinct, insert-IsDistinct}
use supernetes.Prelude.Texts.{
  ◌++◌, strip_prefix, eq_of_strip_prefix, strip_prefix-append, append_cancel, append-ne_prefix,
  scoped, slash,
}
use supernetes.Labels.{label_workload_identifier, scope_extra}
use supernetes.Api.{WorkloadMeta}
use supernetes.Kube.{Pod}
use supernetes.Provider.Conversion.{
  collect_labels, get_labels, workload_meta, apply_extra, apply_workload_meta,
}

-- One round of the loop: a key under the scope is kept without it, any other is passed over.
collect_hit :
    (scope t v : String) (labels rest : Dict String String)
    → collect_labels scope labels ((scoped scope t, v) ∷ rest)
      ≡ collect_labels scope (insert t v labels) rest
unfolding collect_labels
collect_hit scope t v labels rest = ground (
  arith,
  strip_prefix-append (scope ++ "/") t,
  beq-cases t ((scope ++ "/") ++ t),
  append-ne_prefix scope slash t,
)

collect_miss :
    (scope k v : String) (labels rest : Dict String String)
    → strip_prefix (scope ++ "/") k ≡ none
    → collect_labels scope labels ((k, v) ∷ rest) ≡ collect_labels scope labels rest
unfolding collect_labels
collect_miss scope k v labels rest h = ground (arith, beq-cases k k)

-- A label under the scope wins over what was collected before.
lookup-collect_labels :
    (scope k : String) (acc labels : Dict String String)
    → IsDistinct labels
    → lookup k (collect_labels scope acc labels)
      ≡ first_some (lookup (scoped scope k) labels) (lookup k acc)
unfolding lookup
lookup-collect_labels scope k acc [] d = unfold collect_labels in refl
lookup-collect_labels scope k acc ((j, v) ∷ labels) d =
    elim (Option-cases (strip_prefix (scope ++ "/") j)) [
      | inl missed ↦ ground (
        arith,
        collect_miss scope j v acc labels missed,
        lookup-collect_labels scope k acc labels d.1,
        beq-cases j (scoped scope k),
        strip_prefix-append (scope ++ "/") k,
      )
      | inr (t, hit) ↦
          let at_t : j ≡ scoped scope t = eq_of_strip_prefix (scope ++ "/") j t hit in
          ground (
            arith,
            collect_hit scope t v acc labels,
            lookup-collect_labels scope k (insert t v acc) labels d.1,
            lookup-insert t k v acc,
            beq-cases t k,
            beq-cases j (scoped scope k),
            append_cancel (scope ++ "/") t k,
          )
    ]

-- On labels with distinct keys, what getLabels returns for a key is the label of that key under
-- the scope, and nothing else.
lookup-get_labels :
    (pod : Pod) (scope k : String)
    → IsDistinct pod.meta.labels
    → lookup k (get_labels pod scope) ≡ lookup (scoped scope k) pod.meta.labels
unfolding get_labels
lookup-get_labels pod scope k d =
    lookup-collect_labels scope k [] pod.meta.labels d ∙ unfold lookup in ground arith

-- What applyWorkloadMeta writes for each extra value; a later value of a key wins.
lookup-apply_extra :
    (k : String) (extra labels : Dict String String)
    → IsDistinct extra
    → lookup (scoped scope_extra k) (apply_extra extra labels)
      ≡ first_some (lookup k extra) (lookup (scoped scope_extra k) labels)
unfolding apply_extra
lookup-apply_extra k [] labels d = unfold lookup in refl
lookup-apply_extra k ((j, v) ∷ extra) labels d =
    lookup-apply_extra k extra (insert (scoped scope_extra j) v labels) d.1
    ∙ unfold lookup in
      ground (
        arith,
        lookup-insert (scoped scope_extra j) (scoped scope_extra k) v labels,
        beq-cases j k,
        beq-cases (scoped scope_extra j) (scoped scope_extra k),
        append_cancel (scope_extra ++ "/") j k,
      )

apply_extra-IsDistinct :
    (extra labels : Dict String String) → IsDistinct labels → IsDistinct (apply_extra extra labels)
unfolding apply_extra
apply_extra-IsDistinct [] labels d = d
apply_extra-IsDistinct ((k, v) ∷ extra) labels d =
    apply_extra-IsDistinct extra (insert (scoped scope_extra k) v labels)
      (insert-IsDistinct (scoped scope_extra k) v labels d)

identifier-ne-scoped : (k : String) → label_workload_identifier ≢ scoped scope_extra k
unfolding strip_prefix
identifier-ne-scoped k e =
    cc (ap (strip_prefix (scope_extra ++ "/")) e ∙ strip_prefix-append (scope_extra ++ "/") k)

-- The labels that applyWorkloadMeta leaves, read under the extra scope.
lookup-apply_workload_meta :
    (k : String) (meta : WorkloadMeta) (pod : Pod)
    → IsDistinct meta.extra
    → lookup (scoped scope_extra k) (apply_workload_meta meta pod).meta.labels
      ≡ first_some (lookup k meta.extra) (lookup (scoped scope_extra k) pod.meta.labels)
unfolding apply_workload_meta
lookup-apply_workload_meta k meta pod d = ground (
  arith,
  lookup-insert label_workload_identifier (scoped scope_extra k) meta.identifier
      (apply_extra meta.extra pod.meta.labels),
  beq-cases label_workload_identifier (scoped scope_extra k),
  identifier-ne-scoped k,
  lookup-apply_extra k meta.extra pod.meta.labels d,
)

pub lookup-apply_workload_meta_self :
    (meta : WorkloadMeta) (pod : Pod)
    → lookup label_workload_identifier (apply_workload_meta meta pod).meta.labels
      ≡ some meta.identifier
unfolding apply_workload_meta
lookup-apply_workload_meta_self meta pod =
    lookup-insert label_workload_identifier label_workload_identifier meta.identifier
      (apply_extra meta.extra pod.meta.labels)

apply_workload_meta-IsDistinct :
    (meta : WorkloadMeta) (pod : Pod)
    → IsDistinct pod.meta.labels
    → IsDistinct (apply_workload_meta meta pod).meta.labels
unfolding apply_workload_meta
apply_workload_meta-IsDistinct meta pod d =
    insert-IsDistinct label_workload_identifier meta.identifier
      (apply_extra meta.extra pod.meta.labels) (apply_extra-IsDistinct meta.extra pod.meta.labels d)

-- Metadata that is applied to a pod is read back from it: the identifier is the one applied, and
-- every extra value is the applied one, or the one that the pod had before under a key that the
-- applied metadata does not have. The keys of both maps are distinct.
pub workload_meta-apply :
    (meta : WorkloadMeta) (pod : Pod)
    → IsDistinct meta.extra
    → IsDistinct pod.meta.labels
    → ((workload_meta (apply_workload_meta meta pod)).identifier ≡ meta.identifier)
      × ((k : String)
          → lookup k (workload_meta (apply_workload_meta meta pod)).extra
            ≡ first_some (lookup k meta.extra) (lookup k (workload_meta pod).extra))
unfolding workload_meta
workload_meta-apply meta pod de dp =
    (rw (lookup-apply_workload_meta_self meta pod, workload_meta), extras)
  where
    extras :
        (k : String)
        → lookup k (get_labels (apply_workload_meta meta pod) scope_extra)
          ≡ first_some (lookup k meta.extra) (lookup k (get_labels pod scope_extra))
    extras k =
        lookup-get_labels (apply_workload_meta meta pod) scope_extra k
          (apply_workload_meta-IsDistinct meta pod dp)
        ∙ lookup-apply_workload_meta k meta pod de
        ∙ ap (first_some (lookup k meta.extra)) (sym (lookup-get_labels pod scope_extra k dp))
