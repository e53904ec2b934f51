-- ===== src/AppDetail/ResourceTabs.antt =====
-- web/src/pages/AppDetail.tsx, DriftTab and TreeTab: the resources of the inventory, with what has
-- drifted, and the tree. The two tabs have no handlers.
use yafu.Base.{
  ℕ, ltb, Bool, true, false, Option, none, some, or_else, List, [], ◌∷◌, ◌++◌, Text, codes, decimal,
  keep, length, if◌then◌else◌,
}
use yafu.ApiTypes.{
  DriftStatus, DriftedResource, ManagedField, FieldOperation, DiffResponse, NodeStatus, TreeNode,
  TreeResponse,
}
use yafu.Chrome.{status_chip}
use yafu.Markup.{is_empty, Piece, says, toned, dot, row, shown, if_text, each, Query, listing}

-- the tabs' views have nothing to click
pub data NoAction : Type 0 where

abbrev pub drift_resources : Option DiffResponse → List DriftedResource
drift_resources none = []
drift_resources (some d) = d.resources

abbrev pub drift_note : Option DiffResponse → Option Text
drift_note none = none
drift_note (some d) = d.note

abbrev pub is_drift : DriftStatus → Bool
is_drift DriftStatus.drift = true
is_drift _ = false

unfoldable pub count_drifted : List DriftedResource → ℕ
count_drifted rs = length (keep (λ r. is_drift r.status) rs)

abbrev pub drift_status_text : DriftStatus → Text
drift_status_text DriftStatus.ready = codes "ready"
drift_status_text DriftStatus.drift = codes "drift"
drift_status_text DriftStatus.notfound = codes "notfound"
drift_status_text DriftStatus.unknown = codes "unknown"

abbrev pub drift_dot : DriftStatus → Text
drift_dot DriftStatus.drift = codes "var(--err)"
drift_dot DriftStatus.notfound = codes "var(--paused)"
drift_dot DriftStatus.unknown = codes "var(--warn)"
drift_dot DriftStatus.ready = codes "var(--ok)"

-- the status of the chip; a resource that could not be read has the chip of a healthy one
abbrev pub drift_chip : DriftStatus → Text
drift_chip DriftStatus.drift = codes "failing"
drift_chip DriftStatus.notfound = codes "paused"
drift_chip _ = codes "healthy"

abbrev operation_text : FieldOperation → Text
operation_text FieldOperation.apply = codes "Apply"
operation_text FieldOperation.update = codes "Update"

-- a manager of fields: its name in the colour that marks a foreign one, and its title
abbrev pub manager_pieces : ManagedField → List (Piece NoAction)
manager_pieces m =
    toned (if m.foreign then codes "var(--err)" else codes "var(--ink-2)") m.manager
    ∷ says (operation_text m.operation ++ if_text m.time (λ t. codes " · " ++ t))
    ∷ []

abbrev pub managers_pieces : List ManagedField → List (Piece NoAction)
managers_pieces [] = says (codes "—") ∷ []
managers_pieces (m ∷ ms) = each manager_pieces (m ∷ ms)

abbrev pub spaced_name : Option Text → Text → List (Piece NoAction)
spaced_name ns name = if_text ns (λ n. says (n ++ codes "/") ∷ []) ++ (says name ∷ [])

unfoldable pub drift_row : DriftedResource → List (Piece NoAction)
unfolding each status_chip
drift_row r =
    row false none
    ∷ dot (drift_dot r.status)
    ∷ says r.kind
    ∷ (spaced_name r.ns r.name
        ++ (toned (status_chip (drift_chip r.status) (some (drift_status_text r.status))).cls
              (drift_status_text r.status)
            ∷ managers_pieces (or_else r.managers [])))

abbrev drift_summary : ℕ → Text
drift_summary n =
    codes "("
    ++ ((if ltb 0 n then decimal n ++ codes " drifted" else codes "none drifted") ++ codes ")")

-- the note under a list that has rows
abbrev pub list_note : Option Text → Bool → List (Piece NoAction)
list_note note empty =
    if_text note (λ n. shown (if empty then false else true) (says (codes "note: " ++ n) ∷ []))

-- `note ?? fallback`
abbrev pub note_or : Option Text → Text → Text
note_or none t = t
note_or (some n) t = n

unfoldable pub drift_tab : Query DiffResponse → List (Piece NoAction)
unfolding drift_row count_drifted
drift_tab q =
    let resources = drift_resources q.result in
    says (codes "Field-ownership check")
    ∷ says (drift_summary (count_drifted resources))
    ∷ (listing (codes "Checking drift…") (codes "No drift")
          (some (
            note_or (drift_note q.result)
              (codes "Either the inventory is empty or every field is owned by Flux controllers.")))
          q.is_loading q.error (is_empty resources) (each drift_row resources)
        ++ list_note (drift_note q.result) (is_empty resources))

abbrev pub tree_nodes : Option TreeResponse → List TreeNode
tree_nodes none = []
tree_nodes (some d) = d.nodes

abbrev pub tree_note : Option TreeResponse → Option Text
tree_note none = none
tree_note (some d) = d.note

abbrev pub node_dot : NodeStatus → Text
node_dot NodeStatus.failing = codes "var(--err)"
node_dot NodeStatus.progressing = codes "var(--info)"
node_dot NodeStatus.notfound = codes "var(--paused)"
node_dot NodeStatus.unknown = codes "var(--warn)"
node_dot NodeStatus.ready = codes "var(--ok)"

abbrev pub message_color : NodeStatus → Text
message_color NodeStatus.failing = codes "var(--err)"
message_color NodeStatus.notfound = codes "var(--paused)"
message_color _ = codes "var(--ink-3)"

unfoldable pub tree_row : TreeNode → List (Piece NoAction)
tree_row n =
    row false none
    ∷ dot (node_dot n.status)
    ∷ says n.kind
    ∷ (spaced_name n.ns n.name ++ if_text n.message (λ m. toned (message_color n.status) m ∷ []))

unfoldable pub tree_tab : Query TreeResponse → List (Piece NoAction)
unfolding tree_row
tree_tab q =
    let nodes = tree_nodes q.result in
    says (codes "Inventory")
    ∷ says (codes "(" ++ (decimal (length nodes) ++ codes ")"))
    ∷ says (codes "owner-ref nesting in v0.3")
    ∷ (listing (codes "Loading inventory…") (codes "No inventory")
          (some (
            note_or (tree_note q.result)
              (codes "Flux hasn't recorded an inventory for this resource yet.")))
          q.is_loading q.error (is_empty nodes) (each tree_row nodes)
        ++ list_note (tree_note q.result) (is_empty nodes))
