-- ===== src/Store/Artifacts.antt =====
-- The workspace and artifact methods of store.go.
pub mod Cleanup
use nice_agent.Prelude.{
  ℕ, suc, String, Bool, true, false, not, ◌&&◌, ◌||◌, Option, none, some, List, [], ◌∷◌, ◌++◌, Map,
  lookup, put, value_or, leb, ltb, eqb, ◌==◌, length, if◌then◌else◌, or_else, keys, ℤ, pos_or,
}
use nice_agent.Protocol.Run.{Run}
use nice_agent.Protocol.Chat.{ChatSession, Workspace, Artifact}
use nice_agent.Store.{Store, Result, ok, err, not_found}

-- `new_id` is drawn where the workspace brings no identifier.
unfoldable pub add_workspace : ℕ → String → Workspace → Store → Result Workspace × Store
add_workspace now new_id workspace s =
    let w : Workspace = record workspace {
      id = or_else workspace.id new_id;
      created_at = if eqb workspace.created_at 0 then now else workspace.created_at;
    } in
    (ok w, record s { workspaces = put w.id w s.workspaces })

unfoldable pub get_workspace : String → Store → Result Workspace
get_workspace workspace_id s = elim (lookup workspace_id s.workspaces) [
  | none ↦ err not_found
  | some workspace ↦ ok workspace
]

-- The project of the run's chat, where both are known.
fill_project : Option ChatSession → Artifact → Artifact
fill_project none artifact = artifact
fill_project (some chat) artifact = record artifact {
  project_id = or_else artifact.project_id chat.project_id;
}

-- What an artifact takes from its run.
fill_from_run : Map ChatSession → Option Run → Artifact → Artifact
unfolding fill_project
fill_from_run chats none artifact = artifact
fill_from_run chats (some run) artifact = fill_project (lookup run.chat_id chats) (record artifact {
  chat_id = or_else artifact.chat_id run.chat_id;
  user_id = or_else artifact.user_id run.user_id;
  workspace_id = or_else artifact.workspace_id run.workspace_id;
})

filled_artifact : ℕ → String → Artifact → Store → Artifact
unfolding fill_from_run
filled_artifact now new_id artifact s =
    let a : Artifact = record artifact {
      id = or_else artifact.id new_id;
      created_at = if eqb artifact.created_at 0 then now else artifact.created_at;
    } in
    if a.run_id == "" then a else fill_from_run s.chats (lookup a.run_id s.runs) a

unfoldable pub add_artifact : ℕ → String → Artifact → Store → Result Artifact × Store
unfolding filled_artifact
add_artifact now new_id artifact s =
    let a = filled_artifact now new_id artifact s in
    (ok a, record s { artifacts = put a.id a s.artifacts })

abbrev pub artifact_visible_at : Artifact → ℕ → Bool
artifact_visible_at artifact now = elim artifact.deleted_at [
  | some _ ↦ false
  | none ↦ elim artifact.expires_at [ none ↦ true | some expires ↦ ltb now expires ]
]

unfoldable pub get_artifact : ℕ → String → Store → Result Artifact
get_artifact now artifact_id s = elim (lookup artifact_id s.artifacts) [
  | none ↦ err not_found
  | some artifact ↦ if artifact_visible_at artifact now then ok artifact else err not_found
]

-- `sort.Slice` by creation time, as an insertion sort.
insert_by_creation : Artifact → List Artifact → List Artifact
insert_by_creation a [] = a ∷ []
insert_by_creation a (b ∷ bs) =
    let rest = insert_by_creation a bs in
    if leb a.created_at b.created_at then a ∷ b ∷ bs else b ∷ rest

unfoldable pub sort_by_creation : List Artifact → List Artifact
unfolding insert_by_creation
sort_by_creation [] = []
sort_by_creation (a ∷ bs) = insert_by_creation a (sort_by_creation bs)

visible_of_run : ℕ → String → Map Artifact → List Artifact
visible_of_run now run_id [] = []
visible_of_run now run_id ((_, a) ∷ m) =
    let rest = visible_of_run now run_id m in
    if a.run_id == run_id && artifact_visible_at a now then a ∷ rest else rest

unfoldable pub list_artifacts : ℕ → String → Store → List Artifact
unfolding visible_of_run
list_artifacts now run_id s = sort_by_creation (visible_of_run now run_id s.artifacts)

-- `artifact.DeletedAt != nil || artifact.ExpiresAt == nil || artifact.ExpiresAt.After(now)`
abbrev pub stays : ℕ → Artifact → Bool
stays now artifact = elim artifact.deleted_at [
  | some _ ↦ true
  | none ↦ elim artifact.expires_at [ none ↦ true | some expires ↦ ltb now expires ]
]

abbrev pub mark_deleted : ℕ → Artifact → Artifact
mark_deleted now artifact = record artifact { deleted_at = some now }

-- One round of the loop of `DeleteExpiredArtifacts`: the artifact that the key has now.
abbrev pub sweep_one :
    ℕ → String → Option Artifact → List Artifact → Map Artifact → List Artifact × Map Artifact
sweep_one now id none expired m = (expired, m)
sweep_one now id (some a) expired m =
    if stays now a
    then (expired, m)
    else (expired ++ mark_deleted now a ∷ [], put id (mark_deleted now a) m)

-- The loop, over the keys of the map, with what it has collected; it ends at the limit.
unfoldable pub sweep :
    ℕ → ℕ → List String → List Artifact → Map Artifact → List Artifact × Map Artifact
sweep now limit [] expired m = (expired, m)
sweep now limit (id ∷ ids) expired m =
    let (expired', m') = sweep_one now id (lookup id m) expired m in
    let rest = sweep now limit ids expired' m' in
    if leb limit (length expired) then (expired, m) else rest

-- `now` is the argument `at`, or the clock where that is the zero time.
unfoldable pub delete_expired_artifacts : ℕ → ℕ → ℤ → Store → Result (List Artifact) × Store
delete_expired_artifacts clock at limit s =
    let now = if eqb at 0 then clock else at in
    let (expired, artifacts) = sweep now (pos_or limit 100) (keys s.artifacts) [] s.artifacts in
    (ok (sort_by_creation expired), record s { artifacts = artifacts })
