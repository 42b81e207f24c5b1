-- ===== src/Models/Common.antt =====
-- internal/models/common.go. A Go string type with named constants is a data type whose last
-- constructor holds any other text, or a text where the code only compares it.
use vatbrain.Prelude.{
  arith, ℕ, String, ◌≡◌, Bool, true, false, ◌&&◌, ◌||◌, ltb, leb, string_eq, nat_eq, ◌==◌,
}

-- `uuid.UUID`, 128 bits that the code compares; `uuid.Nil` is 0.
abbrev pub Uuid : Type 0
Uuid = ℕ

abbrev pub nil_uuid : Uuid
nil_uuid = 0

-- `time.Time`, in nanoseconds since Go's zero time.
abbrev pub Time : Type 0
Time = ℕ

abbrev pub is_zero : Time → Bool
is_zero t = t == 0

abbrev pub before : Time → Time → Bool
before t u = ltb t u

abbrev pub after : Time → Time → Bool
after t u = ltb u t

pub data SourceType : Type 0 where
  ast llm user debug inferred user_declared summarized delegation : SourceType
  other : String → SourceType

-- `SourceType.IsValid`
unfoldable pub is_valid_source : SourceType → Bool
is_valid_source (SourceType.other _) = false
is_valid_source _ = true

unfoldable pub is_episodic_source : SourceType → Bool
is_episodic_source SourceType.ast = true
is_episodic_source SourceType.llm = true
is_episodic_source SourceType.user = true
is_episodic_source SourceType.debug = true
is_episodic_source SourceType.delegation = true
is_episodic_source _ = false

unfoldable pub is_semantic_source : SourceType → Bool
is_semantic_source SourceType.inferred = true
is_semantic_source SourceType.user_declared = true
is_semantic_source SourceType.summarized = true
is_semantic_source _ = false

abbrev pub TaskType : Type 0
TaskType = String

abbrev pub task_debug : TaskType
task_debug = "debug"

abbrev pub task_feature : TaskType
task_feature = "feature"

abbrev pub task_refactor : TaskType
task_refactor = "refactor"

abbrev pub task_review : TaskType
task_review = "review"

-- `TaskType.IsValid`
unfoldable pub is_valid_task : TaskType → Bool
is_valid_task t = t == task_debug || t == task_feature || t == task_refactor || t == task_review

abbrev pub MemoryType : Type 0
MemoryType = String

abbrev pub memory_pattern : MemoryType
memory_pattern = "PATTERN"

abbrev pub TrustLevel : Type 0
TrustLevel = ℕ

abbrev pub trust_level_min : TrustLevel
trust_level_min = 1

abbrev pub trust_level_max : TrustLevel
trust_level_max = 5

abbrev pub default_trust_level : TrustLevel
default_trust_level = 3

-- `TrustLevel.IsValid`
unfoldable pub is_valid_trust : TrustLevel → Bool
is_valid_trust t = leb trust_level_min t && leb t trust_level_max

pub data SearchAction : Type 0 where
  used corrected ignored confirmed : SearchAction
  other : String → SearchAction

-- `SearchAction.IsValid`
unfoldable pub is_valid_search_action : SearchAction → Bool
is_valid_search_action (SearchAction.other _) = false
is_valid_search_action _ = true

pub data MergeAction : Type 0 where
  created_new updated_existing : MergeAction

unfoldable pub default_trust_level_for_source : SourceType → TrustLevel
default_trust_level_for_source SourceType.user = 5
default_trust_level_for_source SourceType.user_declared = 5
default_trust_level_for_source SourceType.ast = 4
default_trust_level_for_source SourceType.debug = 3
default_trust_level_for_source SourceType.inferred = 2
default_trust_level_for_source SourceType.summarized = 2
default_trust_level_for_source SourceType.llm = 1
default_trust_level_for_source _ = default_trust_level

-- Every source gets a trust level of the valid range, a valid source is exactly an episodic or a
-- semantic one, and no source is both.
pub source_grading :
    (s : SourceType)
    → (is_valid_trust (default_trust_level_for_source s) ≡ true)
      × (is_valid_source s ≡ (is_episodic_source s || is_semantic_source s))
      × ((is_episodic_source s && is_semantic_source s) ≡ false)
unfolding is_valid_trust default_trust_level_for_source is_valid_source is_episodic_source
    is_semantic_source
source_grading (SourceType.other t) = ground arith
source_grading _ = ground arith
