-- ===== src/Api.antt =====
-- The messages of api/v1alpha1/workload.proto that the agent and the controller exchange.
use supernetes.Prelude.{ℕ, String, List, Bool}
use supernetes.Prelude.Dict.{Dict}

pub record WorkloadMeta : Type 0 where
  pub name : String
  pub identifier : String
  pub extra : Dict String String

pub record WorkloadContainer : Type 0 where
  pub name : String
  pub image : String
  pub command : List String
  pub args : List String

pub record WorkloadSpec : Type 0 where
  pub containers : List WorkloadContainer
  pub node_names : List String
  pub job_options : Dict String String

pub data WorkloadPhase : Type 0 where
  pending running succeeded failed unknown : WorkloadPhase

-- Each node is the name of a `NodeMeta`.
pub record WorkloadStatus : Type 0 where
  pub phase : WorkloadPhase
  pub start_time : ℕ
  pub nodes : List String

pub record Workload : Type 0 where
  pub meta : WorkloadMeta
  pub spec : WorkloadSpec
  pub status : WorkloadStatus

-- `WorkloadLogRequest`; `tail` is 0 for the values that are not positive.
pub record WorkloadLogRequest : Type 0 where
  pub meta : WorkloadMeta
  pub container : String
  pub follow : Bool
  pub tail : ℕ
