-- ===== src/Tests/Found.antt =====
-- The theorems on the search of internal/store/memory, applied to sample data.
use vatbrain.Prelude.{◌≡◌, refl, List, ◌++◌, nat_eq}
use vatbrain.Prelude.Result.{ok}
use vatbrain.Float.Fixed.{Fixed, fixed_float}
use vatbrain.Models.Episodic.{EpisodicMemory}
use vatbrain.Store.Memory.Found.{IsFound, Falling, search_episodic-IsFound, search_episodic-newest}
use vatbrain.Store.Memory.Matched.{happened_at}
use vatbrain.Store.Memory.Search.{search_episodic}
use vatbrain.Tests.Samples.{sample_request, two_memories}

search_episodic-IsFound_example :
    (ms : List (EpisodicMemory Fixed)) × (left_out : List (EpisodicMemory Fixed)) × (search_episodic
        sample_request two_memories
      ≡ (ok ms, two_memories))
    × IsFound sample_request two_memories ms left_out
search_episodic-IsFound_example = search_episodic-IsFound sample_request two_memories refl

search_episodic-newest_example :
    (ms : List (EpisodicMemory Fixed)) × (left_out : List (EpisodicMemory Fixed)) × (search_episodic
        sample_request two_memories
      ≡ (ok ms, two_memories))
    × IsFound sample_request two_memories ms left_out
    × Falling happened_at (ms ++ left_out)
search_episodic-newest_example = search_episodic-newest sample_request two_memories refl refl
