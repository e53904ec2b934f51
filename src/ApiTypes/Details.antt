-- ===== src/ApiTypes/Details.antt =====
-- The records of the per-application endpoints, web/src/lib/api-types.ts.
use yafu.Base.{ℕ, Bool, Option, List, Text}
use yafu.ApiTypes.Enums.{
  NodeStatus, FieldOperation, DriftStatus, PodPhase, RenderLineKind, RenderResourceStatus,
  ReconcileWould, SourceKind, RenderMethod,
}

pub record AppHistoryEntry : Type 0 where
  pub revision : Text
  pub status : Option Text
  pub action : Option Text
  pub app_version : Option Text
  pub timestamp : Option Text
  pub current : Bool

pub record AppHistoryResponse : Type 0 where
  pub app_id : Text
  pub entries : List AppHistoryEntry
  pub note : Option Text

pub record TreeNode : Type 0 where
  pub group : Option Text
  pub version : Option Text
  pub kind : Text
  pub ns : Option Text
  pub name : Text
  pub status : NodeStatus
  pub message : Option Text

pub record TreeResponse : Type 0 where
  pub app_id : Text
  pub nodes : List TreeNode
  pub note : Option Text

pub record ManifestResponse : Type 0 where
  pub app_id : Text
  pub kind : Text
  pub yaml : Text

pub record ManagedField : Type 0 where
  pub manager : Text
  pub operation : FieldOperation
  pub time : Option Text
  pub foreign : Bool

pub record DriftedResource : Type 0 where
  pub group : Option Text
  pub version : Option Text
  pub kind : Text
  pub ns : Option Text
  pub name : Text
  pub status : DriftStatus
  pub managers : Option (List ManagedField)

pub record DiffResponse : Type 0 where
  pub app_id : Text
  pub resources : List DriftedResource
  pub note : Option Text

pub record PodInfo : Type 0 where
  pub ns : Text
  pub name : Text
  pub phase : PodPhase
  pub containers : List Text
  pub restarts : ℕ
  pub age : Text

pub record LogsResponse : Type 0 where
  pub app_id : Text
  pub pods : List PodInfo
  pub selected : Option Text
  pub container : Option Text
  pub logs : Option Text
  pub truncated : Option Bool
  pub note : Option Text

pub record RenderLine : Type 0 where
  pub kind : RenderLineKind
  pub desired_ln : Option ℕ
  pub live_ln : Option ℕ
  pub text : Text

pub record RenderHunk : Type 0 where
  pub label : Text
  pub lines : List RenderLine

pub record RenderResource : Type 0 where
  pub group : Option Text
  pub version : Option Text
  pub kind : Text
  pub ns : Option Text
  pub name : Text
  pub status : RenderResourceStatus
  pub hunks : Option (List RenderHunk)
  pub render_error : Option Text
  pub reconcile_would : Option ReconcileWould

pub record RenderSource : Type 0 where
  pub name : Text
  pub namespace : Text
  pub kind : SourceKind
  pub ref : Option Text
  pub revision : Text
  pub method : RenderMethod

pub record RenderResponse : Type 0 where
  pub app_id : Text
  pub source : RenderSource
  pub rendered_at : Text
  pub resources : List RenderResource
  pub error : Option Text

pub record WhoamiResponse : Type 0 where
  pub subject : Text
  pub email : Option Text
  pub name : Option Text
  pub groups : Option (List Text)
  pub is_anonymous : Bool
