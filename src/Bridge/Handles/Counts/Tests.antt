-- ===== src/Bridge/Handles/Counts/Tests.antt =====
-- Dart copies the handle of a connection, and both copies are finalized.
use iroh_dart.Prelude.{◌≡◌, ◌+◌, ◌⊎◌, none, List, [], ◌∷◌, arith}
use iroh_dart.Bridge.Handles.Toy.{process, numbered-PoolLaws, busy}
use iroh_dart.Bridge.Handles.Counts.{
  connection, router_builder, Export, increments, decrements, increment_strong_count,
  decrement_strong_count, export_call, references, object_at, run_exports,
}
use iroh_dart.Bridge.Handles.Counts.Laws.{made, dropped, run_exports-counts}

abbrev both_finalized : List Export
both_finalized =
    increments connection 0
    ∷ increments router_builder 0
    ∷ decrements connection 0
    ∷ decrements connection 0
    ∷ []

run_exports-counts_example :
    (references process connection 0 (run_exports process both_finalized busy)
        + dropped connection 0 both_finalized
      ≡ references process connection 0 busy + made connection 0 both_finalized)
    × ((object_at process connection 0 (run_exports process both_finalized busy)
          ≡ object_at process connection 0 busy)
        ⊎ ((references process connection 0 (run_exports process both_finalized busy) ≡ 0)
            × (object_at process connection 0 (run_exports process both_finalized busy) ≡ none)))
unfolding export_call increment_strong_count decrement_strong_count
run_exports-counts_example =
    run_exports-counts process numbered-PoolLaws connection 0 both_finalized busy (omega arith)
