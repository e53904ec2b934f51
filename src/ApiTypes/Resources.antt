-- ===== src/ApiTypes/Resources.antt =====
-- The rows of the list endpoints, web/src/lib/api-types.ts.
use yafu.Base.{ℕ, Bool, Option, List, Text}
use yafu.ApiTypes.Enums.{
  ClusterStatus, AppKind, Status, Sync, SourceKind, AlertSeverity, AlertStatus, EventKind,
  EventType, ImageStatus,
}

pub record ClusterError : Type 0 where
  pub cluster : Text
  pub error : Text

pub record Cluster : Type 0 where
  pub id : Text
  pub name : Text
  pub region : Option Text
  pub env : Option Text
  pub status : ClusterStatus
  pub apps : ℕ
  pub ready : ℕ
  pub failing : ℕ
  pub suspended : ℕ
  pub sources : ℕ
  pub version : Option Text
  pub reachable : Bool
  pub flux_installed : Bool
  pub last_error : Option Text
  pub spark : Option (List ℕ)

pub record ClustersResponse : Type 0 where
  pub clusters : List Cluster

pub record Application : Type 0 where
  pub id : Text
  pub name : Text
  pub kind : AppKind
  pub ns : Text
  pub cluster : Text
  pub cluster_id : Text
  pub status : Status
  pub sync : Sync
  pub source : Text
  pub revision : Text
  pub age : Text
  pub message : Option Text
  pub suspended : Bool
  pub replicas : Option Text

pub record ApplicationsResponse : Type 0 where
  pub applications : List Application
  pub errors : Option (List ClusterError)

pub record Source : Type 0 where
  pub id : Text
  pub name : Text
  pub kind : SourceKind
  pub ns : Text
  pub cluster : Text
  pub cluster_id : Text
  pub url : Text
  pub ref : Option Text
  pub revision : Option Text
  pub status : Status
  pub interval : Option Text
  pub age : Text
  pub message : Option Text
  pub suspended : Bool

pub record SourcesResponse : Type 0 where
  pub sources : List Source
  pub errors : Option (List ClusterError)

pub record Alert : Type 0 where
  pub id : Text
  pub name : Text
  pub cluster : Text
  pub cluster_id : Text
  pub ns : Text
  pub provider : Text
  pub severity : AlertSeverity
  pub target : Option Text
  pub status : AlertStatus
  pub suspended : Bool
  pub age : Text

pub record AlertsResponse : Type 0 where
  pub alerts : List Alert
  pub errors : Option (List ClusterError)

pub record FluxEvent : Type 0 where
  pub id : Text
  pub t : Text
  pub cluster : Text
  pub cluster_id : Text
  pub ns : Text
  pub kind : EventKind
  pub type : EventType
  pub reason : Text
  pub message : Text
  pub object : Text
  pub source : Text

pub record EventsResponse : Type 0 where
  pub events : List FluxEvent
  pub errors : Option (List ClusterError)

pub record ImageUpdate : Type 0 where
  pub id : Text
  pub name : Text
  pub cluster : Text
  pub cluster_id : Text
  pub ns : Text
  pub image : Text
  pub latest_tag : Option Text
  pub policy : Text
  pub status : ImageStatus
  pub age : Text
  pub message : Option Text
  pub suspended : Bool

pub record ImageUpdatesResponse : Type 0 where
  pub updates : List ImageUpdate
  pub errors : Option (List ClusterError)
