-- ===== src/Tests/Store.antt =====
-- The theorems on internal/store and internal/models, applied to sample data.
use vatbrain.Prelude.{◌≡◌, refl, [], ◌∷◌, arith}
use vatbrain.Prelude.Dict.{values}
use vatbrain.Prelude.Int.{pos}
use vatbrain.Prelude.Text.{codes}
use vatbrain.Float.Fixed.{Fixed, fixed_float, Fixed-IsOrdered, Fixed-IsArith}
use vatbrain.Models.Pitfall.{PitfallFeedbackAction}
use vatbrain.Store.WorkingMemory.{new_working_memory_buffer, get_cycles}
use vatbrain.Store.WorkingMemory.Cycles.{pushed, cleared, apply_all, history, cycles_history}
use vatbrain.Store.WorkingMemory.Window.{last_of}
use vatbrain.Store.Memory.State.{new_store}
use vatbrain.Store.Memory.Pitfalls.{write_pitfall, apply_pitfall_feedback}
use vatbrain.Store.Memory.Feedback.{
  InRange, PitfallsInRange, here, next, wrote, fed_back, pitfalls_in_range,
}
use vatbrain.Tests.Samples.{sample_pitfall}

cycles_history_example :
    get_cycles "a" (
      apply_all
        (pushed "a" (codes "x")
          ∷ cleared "a"
          ∷ pushed "a" (codes "y")
          ∷ pushed "b" (codes "z")
          ∷ pushed "a" (codes "u")
          ∷ pushed "a" (codes "v")
          ∷ [])
        (new_working_memory_buffer (pos 2)))
    ≡ last_of (new_working_memory_buffer (pos 2)).max_size (
        history "a" [] (
          pushed "a" (codes "x")
          ∷ cleared "a"
          ∷ pushed "a" (codes "y")
          ∷ pushed "b" (codes "z")
          ∷ pushed "a" (codes "u")
          ∷ pushed "a" (codes "v")
          ∷ []))
cycles_history_example =
    cycles_history (pos 2)
      (pushed "a" (codes "x")
        ∷ cleared "a"
        ∷ pushed "a" (codes "y")
        ∷ pushed "b" (codes "z")
        ∷ pushed "a" (codes "u")
        ∷ pushed "a" (codes "v")
        ∷ [])
      "a"

sample-InRange : InRange {W = Fixed} sample_pitfall
sample-InRange = record {
  weight = record { zero_le = refl; le_one = refl };
  protection = ground arith;
}

pitfalls_in_range_example :
    PitfallsInRange {W = Fixed}
      (apply_pitfall_feedback 7 PitfallFeedbackAction.recurred 200
        (write_pitfall sample_pitfall new_store).1).1
unfolding values
pitfalls_in_range_example = pitfalls_in_range Fixed-IsOrdered Fixed-IsArith {s = new_store} tt (
    next (next here (wrote sample_pitfall sample-InRange))
      (fed_back 7 PitfallFeedbackAction.recurred 200))
