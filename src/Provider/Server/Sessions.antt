-- ===== src/Provider/Server/Sessions.antt =====
-- What a session switch of internal/provider/lifecycle.go does to the sessions.
use vatbrain.Prelude.{
  ◌≡◌, refl, Bool-cases, inl, inr, ◌&&◌, ◌||◌, false, String, string_eq, ◌==◌, none, some, Bool,
  true, sym, [], Option, if◌then◌else◌, arith,
}
use vatbrain.Prelude.Dict.{lookup, lookup-insert, lookup-delete}
use vatbrain.Prelude.Result.{ok}
use vatbrain.Store.WorkingMemory.{WorkingMemoryBuffer, get_cycles}
use vatbrain.Store.WorkingMemory.Cycles.{get_cycles-clear_cycles}
use mathlib.Core.Bool.{false≢true}
use vatbrain.Provider.Server.{
  cleared, Server, SessionState, OnSessionSwitchParams, session_for, rebound,
  handle_on_session_switch,
}

-- What a reset does to a working memory, if there is one; the daemon may run without.
abbrev pub IsCleared :
    Bool → String → Option WorkingMemoryBuffer → Option WorkingMemoryBuffer → Type 0
IsCleared reset project none w' = w' ≡ none
IsCleared reset project (some w) w' =
    (v : WorkingMemoryBuffer) × (w' ≡ some v)
    × (reset ≡ false → v ≡ w)
    × (reset ≡ true → (q : String) → get_cycles q v ≡ (if project == q then [] else get_cycles q w))

cleared-IsCleared :
    (reset : Bool) (project : String) (w : Option WorkingMemoryBuffer)
    → IsCleared reset project w (if reset then cleared project w else w)
unfolding cleared
cleared-IsCleared true project none = refl
cleared-IsCleared false project none = refl
cleared-IsCleared true project (some w) =
    (_, refl, λ e. absurd (false≢true (sym e)), λ e q. get_cycles-clear_cycles w project q)
cleared-IsCleared false project (some w) = (_, refl, λ e. refl, λ e. absurd (false≢true e))

-- A switch of a known session to a name that is not empty succeeds: the new name has the session, the
-- old name has none unless it is the new one, and every other name has the session that it had; where
-- the transcript was rewound, neither name has a cached prefetch, and otherwise the cache is kept; where
-- the working memory was reset, the session's project has no cycles left and every other project has those
-- that it had, and otherwise the working memory is kept; and the store and the index of mirrored entries
-- are kept.
pub switch_rebinds :
    {S : Type 0} (p : OnSessionSwitchParams) (session : SessionState) (s : Server S)
    → session_for p.session_id s ≡ some session
    → (p.new_session_id == "") ≡ false
    → (s' : Server S) × (handle_on_session_switch p s ≡ (ok tt, s'))
      × ((id : String)
          → session_for id s' ≡ (
              if p.new_session_id == id
              then some session
              else if p.session_id == id
              then none
              else session_for id s))
      × ((id : String)
          → lookup id s'.prefetch_cache ≡ (
              if p.rewound && (p.new_session_id == id || p.session_id == id)
              then none
              else lookup id s.prefetch_cache))
      × IsCleared p.reset session.project_id s.working_mem s'.working_mem
      × (s'.store ≡ s.store)
      × (s'.memory_write ≡ s.memory_write)
unfolding handle_on_session_switch rebound session_for
switch_rebinds p session s known named = (
  rebound p session s,
  rw (named, known) refl,
  λ id. rw (lookup-insert, lookup-delete) refl,
  λ id. elim (Bool-cases p.rewound) [
    | inl e ↦ rw (e, lookup-delete, lookup-delete) (ground arith)
    | inr e ↦ rw e refl
  ],
  cleared-IsCleared p.reset session.project_id s.working_mem,
  refl,
  refl,
)
