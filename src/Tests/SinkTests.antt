-- ===== src/Tests/SinkTests.antt =====
-- The reports of a runtime.
use nice_agent.Prelude.{◌≡◌, refl, some, [], ◌∷◌, lookup}
use nice_agent.Protocol.Run.{Run, succeeded}
use nice_agent.Store.{ok}
use nice_agent.Store.Steps.Terminal.{status_of}
use nice_agent.Sink.Calls.{World}
use nice_agent.Sink.{complete}
use nice_agent.Sink.Outcome.{complete_succeeds}
use nice_agent.Tests.Data.{chat, claimed, report, busy, outside, world}

complete_succeeds_example :
    ((complete outside "run_1" "Done." (report ∷ []) world).0 ≡ ok tt)
    × (status_of (complete outside "run_1" "Done." (report ∷ []) world).1.store "run_1"
        ≡ some succeeded)
unfolding lookup
complete_succeeds_example =
    complete_succeeds outside "run_1" "Done." (report ∷ []) world claimed chat refl refl refl

abbrev done : Run
done = record claimed { status = succeeded; finished_at = some 80 }

abbrev done_world : World
done_world = record world { store = record busy { runs = ("run_1", done) ∷ [] } }
