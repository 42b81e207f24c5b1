-- ===== src/Tests/Server.antt =====
-- The theorems on the requests, sessions and mirrored entries of internal/provider, applied to sample data.
use vatbrain.Prelude.{
  ◌≡◌, refl, ◌&&◌, ◌||◌, true, false, String, string_eq, nat_eq, ◌==◌, Option, none, some, List, [],
  ◌∷◌, if◌then◌else◌, arith,
}
use vatbrain.Prelude.Dict.{lookup, insert, empty}
use vatbrain.Prelude.Result.{Action, Done, ok, err, unknown_session}
use vatbrain.Prelude.Int.{pos}
use vatbrain.Prelude.Text.{Text, codes}
use vatbrain.Float.Fixed.{Fixed, fixed_float}
use vatbrain.Store.Memory.State.{Store}
use vatbrain.Store.Memory.Backend.{memory_store}
use vatbrain.Store.Memory.Has.{Has}
use vatbrain.Store.WorkingMemory.{WorkingMemoryBuffer, push_cycle, new_working_memory_buffer}
use vatbrain.Provider.Server.{
  Server, SessionState, MemoryWriteEntry, WriteAction, WriteClock, OnMemoryWriteParams,
  OnSessionSwitchParams, target_or_default, session_for, handle_on_memory_write,
  handle_on_session_switch, last_entry,
}
use vatbrain.Provider.Server.Mirrored.{
  IsOnly, IsReplaced, removal_of, replace_supersedes, removal_repeats,
}
use vatbrain.Provider.Server.Sessions.{IsCleared, switch_rebinds}
use vatbrain.Core.Gate.{WriteEvent}
use vatbrain.Core.Write.{WriteDeps}
use vatbrain.Provider.Derive.{derive_write_event}
use vatbrain.Provider.Turns.{SyncTurnParams}
use vatbrain.Provider.Daemon.{Request, Daemon, Readings, handle}
use vatbrain.Provider.Daemon.Refused.{unstarted_is_refused}
use vatbrain.Tests.Samples.{two_memories, memory}

abbrev digest : Text → String
digest t = "c0ffee00"

abbrev silent : Text → Option (List Fixed)
silent t = none

abbrev primary : SessionState
primary = record { project_id = "vatbrain"; agent_context = "primary" }

abbrev second : MemoryWriteEntry
second = record { content_hash = "00000002"; memory_id = 2 }

-- one session, with two mirrored entries of which the second is the last
abbrev mirrored_twice : Server (Store Fixed)
mirrored_twice = record {
  store = two_memories;
  working_mem = none;
  sessions = insert "s1" primary empty;
  prefetch_cache = insert "s1" (codes "a block") empty;
  memory_write =
      insert "memory" (record { content_hash = "00000001"; memory_id = 1 } ∷ second ∷ []) empty;
}

abbrev early : WriteClock
early = record { created = 100; retired = 101; edge = 102 }

abbrev late : WriteClock
late = record { created = 200; retired = 201; edge = 202 }

abbrev entry : WriteAction → OnMemoryWriteParams
entry action = record {
  action = action;
  target = "";
  content = codes "use text gsub";
  session_id = "s1";
  metadata = empty;
}

known : session_for "s1" mirrored_twice ≡ some primary
unfolding session_for lookup insert
known = refl

is_last : last_entry (target_or_default "") mirrored_twice.memory_write ≡ some second
unfolding target_or_default last_entry lookup insert
is_last = refl

second_is_stored : lookup 2 two_memories.episodics ≡ some (memory 2 20 none)
unfolding lookup insert
second_is_stored = refl

replace_supersedes_example :
    (s' : Server (Store Fixed)) × (handle_on_memory_write memory_store digest silent early 9
        (entry WriteAction.replace)
        mirrored_twice
      ≡ (
        ok (record { persisted = true; memory_id = 9; obsoleted = true; edge_created = true }),
        s',
      ))
    × IsReplaced "c0ffee00" 9 2 101 (entry WriteAction.replace) s'
replace_supersedes_example =
    replace_supersedes digest silent early 9 primary (entry WriteAction.replace) mirrored_twice
      second known refl is_last (ground arith) (memory 2 20 none, second_is_stored, tt)

removal_repeats_example :
    (s₁ s₂ : Server (Store Fixed)) × (handle_on_memory_write memory_store digest silent early 9
        (entry WriteAction.remove)
        mirrored_twice
      ≡ (ok (removal_of second), s₁))
    × Has (λ m. m.obsoleted_at ≡ some 101) s₁.store 2
    × IsOnly 2 two_memories s₁.store
    × (handle_on_memory_write memory_store digest silent late 10 (entry WriteAction.remove) s₁
        ≡ (ok (removal_of second), s₂))
    × Has (λ m. m.obsoleted_at ≡ some 201) s₂.store 2
    × IsOnly 2 two_memories s₂.store
    × (s₂.memory_write ≡ mirrored_twice.memory_write)
removal_repeats_example =
    removal_repeats digest silent early late 9 10 primary (entry WriteAction.remove) mirrored_twice
      second known refl is_last (memory 2 20 none, second_is_stored, tt)

abbrev to_branch : OnSessionSwitchParams
to_branch = record { session_id = "s1"; new_session_id = "s2"; reset = true; rewound = true }

abbrev buffer : WorkingMemoryBuffer
buffer = push_cycle "vatbrain" (codes "a cycle") (new_working_memory_buffer (pos 2))

abbrev with_buffer : Server (Store Fixed)
with_buffer = record mirrored_twice { working_mem = some buffer }

switch_rebinds_example :
    (s' : Server (Store Fixed)) × (handle_on_session_switch to_branch with_buffer ≡ (ok tt, s'))
    × ((id : String)
        → session_for id s' ≡ (
            if "s2" == id
            then some primary
            else if "s1" == id
            then none
            else session_for id with_buffer))
    × ((id : String)
        → lookup id s'.prefetch_cache ≡ (
            if true && ("s2" == id || "s1" == id)
            then none
            else lookup id with_buffer.prefetch_cache))
    × IsCleared true "vatbrain" (some buffer) s'.working_mem
    × (s'.store ≡ with_buffer.store)
    × (s'.memory_write ≡ with_buffer.memory_write)
unfolding session_for
switch_rebinds_example = switch_rebinds to_branch primary with_buffer known refl

abbrev no_deps : WriteDeps Fixed
no_deps = record {
  gate = none;
  pattern_sep = none;
  weight_decay = none;
  embedder = silent;
  surprise = none;
  skip_link_on_write = false;
  update_tracker = none;
}

abbrev derived : Text → Text → WriteEvent
derived user assistant = derive_write_event user

abbrev turn : SyncTurnParams
turn = record {
  session_id = "s3";
  user_content = codes "remember this";
  assistant_content = [];
  agent_context = "";
}

abbrev daemon : Daemon Fixed (Store Fixed)
daemon = record {
  store = memory_store;
  embed = silent;
  deps = no_deps;
  explain = λ a b w. "";
  deriver = derived;
  force_confirm = false;
  complexity = λ files. none;
  day = λ t. codes "2026-01-01";
  entry_hash = digest;
  trimmed = λ n. n;
}

abbrev readings : Readings
readings = record { fresh = 9; now = 100; clock = λ n. n; write_clock = early }

abbrev no_engine : Option (Action (Store Fixed) Done)
no_engine = none

third_is_unknown : session_for "s3" mirrored_twice ≡ none
unfolding session_for lookup insert
third_is_unknown = refl

unstarted_is_refused_example :
    handle daemon no_engine readings (Request.sync_turn turn) mirrored_twice
    ≡ (err unknown_session, mirrored_twice)
unstarted_is_refused_example =
    unstarted_is_refused daemon no_engine readings (Request.sync_turn turn) "s3" mirrored_twice refl
      third_is_unknown
