-- ===== src/Tests/ArtifactTests.antt =====
-- The cleanup of artifacts.
use nice_agent.Prelude.{◌≡◌, refl, true, lookup, put, List, [], ◌∷◌, pos, arith}
use nice_agent.Protocol.Chat.{Artifact}
use nice_agent.Store.Artifacts.{
  get_artifact, stays, mark_deleted, sweep, sort_by_creation, delete_expired_artifacts,
}
use nice_agent.Store.Artifacts.Cleanup.{get_artifact-delete_expired, delete_expired_complete}
use nice_agent.Tests.Data.{report, busy}

get_artifact-delete_expired_example :
    get_artifact 60 "art_1" (delete_expired_artifacts 50 0 (pos 5) busy).1
    ≡ get_artifact 60 "art_1" busy
get_artifact-delete_expired_example =
    get_artifact-delete_expired 50 0 60 (pos 5) "art_1" busy (omega arith)

abbrev taken : List Artifact
taken = mark_deleted 50 report ∷ []

delete_expired_complete_example : stays 50 (mark_deleted 50 report) ≡ true
unfolding delete_expired_artifacts sweep sort_by_creation lookup put
delete_expired_complete_example =
    delete_expired_complete 50 0 (pos 5) busy {taken = taken} "art_1" (mark_deleted 50 report) refl
      (omega arith) refl
