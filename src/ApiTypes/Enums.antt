-- ===== src/ApiTypes/Enums.antt =====
-- The unions of text literals of web/src/lib/api-types.ts, and the literals themselves.
use yafu.Base.{Text, codes}

pub data ClusterStatus : Type 0 where
  healthy degraded failing unreachable : ClusterStatus

abbrev pub cluster_status_text : ClusterStatus → Text
cluster_status_text healthy = codes "healthy"
cluster_status_text degraded = codes "degraded"
cluster_status_text failing = codes "failing"
cluster_status_text unreachable = codes "unreachable"

pub data AppKind : Type 0 where
  kustomization helm_release : AppKind

abbrev pub app_kind_text : AppKind → Text
app_kind_text kustomization = codes "Kustomization"
app_kind_text helm_release = codes "HelmRelease"

-- The status of an application, and of a source.
pub data Status : Type 0 where
  healthy degraded failing progressing paused : Status

abbrev pub status_text : Status → Text
status_text healthy = codes "healthy"
status_text degraded = codes "degraded"
status_text failing = codes "failing"
status_text progressing = codes "progressing"
status_text paused = codes "paused"

pub data Sync : Type 0 where
  synced out_of_sync progressing suspended : Sync

abbrev pub sync_text : Sync → Text
sync_text synced = codes "Synced"
sync_text out_of_sync = codes "OutOfSync"
sync_text progressing = codes "Progressing"
sync_text suspended = codes "Suspended"

pub data SourceKind : Type 0 where
  git_repository helm_repository oci_repository bucket : SourceKind

abbrev pub source_kind_text : SourceKind → Text
source_kind_text git_repository = codes "GitRepository"
source_kind_text helm_repository = codes "HelmRepository"
source_kind_text oci_repository = codes "OCIRepository"
source_kind_text bucket = codes "Bucket"

pub data AlertSeverity : Type 0 where
  info error : AlertSeverity

pub data AlertStatus : Type 0 where
  healthy paused : AlertStatus

pub data EventKind : Type 0 where
  ok warn err : EventKind

pub data EventType : Type 0 where
  normal warning : EventType

pub data ImageStatus : Type 0 where
  ready failing progressing paused : ImageStatus

pub data NodeStatus : Type 0 where
  ready failing progressing notfound unknown : NodeStatus

pub data FieldOperation : Type 0 where
  apply update : FieldOperation

pub data DriftStatus : Type 0 where
  ready drift notfound unknown : DriftStatus

pub data PodPhase : Type 0 where
  pending running succeeded failed unknown : PodPhase

pub data RenderLineKind : Type 0 where
  context add del empty : RenderLineKind

pub data RenderResourceStatus : Type 0 where
  in_sync drifted missing_on_cluster extra_on_cluster render_error : RenderResourceStatus

pub data ReconcileWould : Type 0 where
  create update delete : ReconcileWould

pub data RenderMethod : Type 0 where
  kustomize_build helm_template : RenderMethod
