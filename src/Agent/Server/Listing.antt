-- ===== src/Agent/Server/Listing.antt =====
-- What List of the workload server sends.
use supernetes.Prelude.{
  List, [], ◌∷◌, Bool, true, ◌≡◌, refl, Option, some, select, map, Bool-cases, inl, inr,
}
use supernetes.Api.{Workload}
use supernetes.Agent.Filters.{Filter, match_partition, match_node}
use supernetes.Agent.Jobs.{Job, convert_to_api}
use supernetes.Agent.Server.{send_jobs, list}

send_jobs-all :
    (filter : Option Filter) (send : Workload → Bool) (jobs : List Job)
    → ((w : Workload) → send w ≡ true)
    → send_jobs filter send jobs ≡ (
      map
          (convert_to_api (match_node filter))
          (select (λ j. match_partition filter j.partition) jobs),
      true,
    )
unfolding send_jobs select
send_jobs-all filter send [] h = refl
send_jobs-all filter send (j ∷ jobs) h = elim (Bool-cases (match_partition filter j.partition)) [
  | inl y ↦
      rw
        (
          y,
          h (convert_to_api (match_node filter) j),
          send_jobs-all filter send jobs h,
          select,
          send_jobs,
        )
        refl
  | inr n ↦ rw (n, send_jobs-all filter send jobs h, select, send_jobs) refl
]

-- While no send fails, List sends the jobs of the partitions of the filter, all of them, in order
-- and each once, with the nodes of the filter.
pub list-jobs :
    (filter : Option Filter) (send : Workload → Bool) (jobs : List Job)
    → ((w : Workload) → send w ≡ true)
    → list filter send (some jobs) ≡ (
      map
          (convert_to_api (match_node filter))
          (select (λ j. match_partition filter j.partition) jobs),
      true,
    )
unfolding list
list-jobs filter send jobs h = send_jobs-all filter send jobs h
