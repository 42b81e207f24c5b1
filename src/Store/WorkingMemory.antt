-- ===== src/Store/WorkingMemory.antt =====
-- internal/store/working_memory.go: a ring buffer of summaries for each project. The mutex makes
-- each method one step.
pub mod Window
pub mod Cycles
use vatbrain.Prelude.{
  ℕ, zero, suc, ◌+◌, ◌-◌, ◌%◌, String, Option, none, some, List, [], ◌∷◌, length, get_or, set,
  replicate, ltb, string_eq, if◌then◌else◌,
}
use vatbrain.Prelude.Dict.{Dict, empty, lookup, insert, delete}
use vatbrain.Prelude.Int.{ℤ, pos_part, positive}
use vatbrain.Prelude.Text.{Text}

pub record RingBuffer : Type 0 where
  pub items : List Text
  pub head : ℕ
  pub size : ℕ

pub new_ring_buffer : ℕ → RingBuffer
new_ring_buffer max_size = record { items = replicate max_size []; head = 0; size = 0 }

-- `push`: a write at `head`, which moves round.
pub push : Text → RingBuffer → RingBuffer
push s rb = record {
  items = set rb.items rb.head s;
  head = (rb.head + 1) % length rb.items;
  size = if ltb rb.size (length rb.items) then rb.size + 1 else rb.size;
}

-- The loop of `getAll`, with `left` elements to go. The sum is never below zero in a valid buffer,
-- so the truncated difference of numbers is the source's.
get_from : RingBuffer → ℕ → ℕ → List Text
get_from rb i zero = []
get_from rb i (suc left) =
    get_or rb.items ((rb.head + i + length rb.items - rb.size) % length rb.items) []
    ∷ get_from rb (i + 1) left

pub get_all : RingBuffer → List Text
unfolding get_from
get_all rb = get_from rb 0 rb.size

pub record WorkingMemoryBuffer : Type 0 where
  pub cycles : Dict String RingBuffer
  pub max_size : ℕ

pub new_working_memory_buffer : ℤ → WorkingMemoryBuffer
new_working_memory_buffer n = record {
  cycles = empty;
  max_size = if positive n then pos_part n else 20;
}

buffer_or_new : ℕ → Option RingBuffer → RingBuffer
buffer_or_new max_size none = new_ring_buffer max_size
buffer_or_new max_size (some rb) = rb

-- `Push`
unfoldable pub push_cycle : String → Text → WorkingMemoryBuffer → WorkingMemoryBuffer
unfolding buffer_or_new
push_cycle project summary w =
    let rb = buffer_or_new w.max_size (lookup project w.cycles) in
    record w { cycles = insert project (push summary rb) w.cycles }

contents_of : Option RingBuffer → List Text
contents_of none = []
contents_of (some rb) = get_all rb

-- `GetAll`
unfoldable pub get_cycles : String → WorkingMemoryBuffer → List Text
unfolding contents_of
get_cycles project w = contents_of (lookup project w.cycles)

-- `Clear`
unfoldable pub clear_cycles : String → WorkingMemoryBuffer → WorkingMemoryBuffer
clear_cycles project w = record w { cycles = delete project w.cycles }
