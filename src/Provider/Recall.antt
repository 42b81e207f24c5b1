-- ===== src/Provider/Recall.antt =====
-- The recall of a session, internal/provider/server.go. The goroutine that warms the cache is a value that
-- the handler returns: it is run later, in two steps, a retrieval and a store into the cache, and whatever
-- the daemon does meanwhile comes between. A retrieval that fails is logged, and gives nothing.
use vatbrain.Prelude.{
  ◌≡◌, refl, ap, ap₂, ◌∙◌, Bool-cases, inl, inr, String, string_eq, List, [], Option, none, some,
  arith, if◌then◌else◌,
}
use vatbrain.Prelude.Dict.{lookup, insert, delete, lookup-insert, lookup-delete}
use vatbrain.Prelude.Format.{is_empty, trim_space}
use vatbrain.Prelude.Int.{pos}
use vatbrain.Prelude.Result.{Action, Result, ok, err}
use vatbrain.Prelude.Text.{Text}
use vatbrain.Float.{Float64}
use vatbrain.Models.Common.{Time}
use vatbrain.Store.{MemoryStore}
use vatbrain.Provider.Condense.{format_prefetch_condensed, default_condense_options}
use vatbrain.Provider.Retrieve.{retrieve_episodic, retrieve_pitfalls}
use vatbrain.Provider.Server.{Server, SessionState, session_for, with_session}

or_none : {A : Type 0} → Result (List A) → List A
or_none (ok xs) = xs
or_none (err e) = []

-- `takePrefetch`
unfoldable pub take_prefetch : {S : Type 0} → String → Server S → Option Text × Server S
take_prefetch id s =
    (lookup id s.prefetch_cache, record s { prefetch_cache = delete id s.prefetch_cache })

-- A waiting recall, or the one that is searched for.
abbrev pub text_or : Text → Option Text → Text
text_or cold none = cold
text_or cold (some t) = t

-- The store as it is where a recall waits.
abbrev pub store_or : {S : Type 0} → S → S → Option Text → S
store_or searched kept none = searched
store_or searched kept (some t) = kept

-- The goroutine that warms the cache, with what it was started with.
pub record WarmJob : Type 0 where
  pub session_id : String
  pub project_id : String
  pub query : Text

-- The answer is empty; the goroutine is started.
unfoldable pub handle_queue_prefetch : {S : Type 0} → String → Text → Action (Server S) WarmJob
handle_queue_prefetch id query s =
    with_session (session_for id s)
      (λ session t.
        (ok (record { session_id = id; project_id = session.project_id; query = query }), t))
      s

-- What the goroutine does at last, with the lock: a recall that is empty leaves the cache as it is.
unfoldable pub keep_prefetch : {S : Type 0} → WarmJob → Text → Server S → Server S
keep_prefetch job text s =
    if is_empty text
    then s
    else record s { prefetch_cache = insert job.session_id text s.prefetch_cache }

keep_prefetch-cache :
    {S : Type 0} (job : WarmJob) (text : Text) (s : Server S)
    → let s₁ = keep_prefetch job text s in
      let id = job.session_id in
      (lookup id s₁.prefetch_cache
        ≡ (if is_empty text then lookup id s.prefetch_cache else some text))
      × (s₁.store ≡ s.store)
      × (s₁.sessions ≡ s.sessions)
unfolding keep_prefetch
keep_prefetch-cache job text s =
    let id = job.session_id in
    let l = lookup-insert id id text s.prefetch_cache in
    elim (Bool-cases (is_empty text)) [
      | inl e ↦ rw e (refl, refl, refl)
      | inr e ↦ rw e (ground (arith, l, string_eq.beq_iff id id), refl, refl)
    ]

module _ {W S : Type 0} ⦃d : Float64 W⦄ (store : MemoryStore W S) (embed : Text → Option (List W))
    (day : Time → Text) where
  unfoldable pub build_prefetch : Time → String → Text → S → Text × S
  unfolding or_none
  build_prefetch now project query s =
      let (episodes, s₁) = retrieve_episodic store embed now project query (pos 0) s in
      let (pitfalls, s₂) = retrieve_pitfalls store embed project query (pos 0) s₁ in
      let (text, stats) =
        format_prefetch_condensed day (or_none episodes) (or_none pitfalls)
          (default_condense_options {W = W}) in
      if is_empty (trim_space query) then ([], s) else (text, s₂)

  -- What the goroutine does first, without the lock: it retrieves.
  unfoldable pub warm_text : Time → WarmJob → Server S → Text × Server S
  warm_text now job s =
      let (text, st) = build_prefetch now job.project_id job.query s.store in
      (text, record s { store = st })

  served : Time → String → Text → Option Text × Server S → Result Text × Server S
  unfolding build_prefetch
  served now project query (some text, s) = (ok text, s)
  served now project query (none, s) =
      let (text, st) = build_prefetch now project query s.store in
      (ok text, record s { store = st })

  unfoldable pub handle_prefetch : Time → String → Text → Action (Server S) Text
  unfolding served take_prefetch
  handle_prefetch now id query s =
      with_session (session_for id s)
        (λ session t. served now session.project_id query (take_prefetch id t)) s

  served-lem :
      (now : Time) (project : String) (query : Text) (waiting : Option Text) (s : Server S)
      → let (cold, st) = build_prefetch now project query s.store in
        let (r, s₁) = served now project query (waiting, s) in
        (r ≡ ok (text_or cold waiting))
        × (s₁.store ≡ store_or st s.store waiting)
        × (s₁.prefetch_cache ≡ s.prefetch_cache)
        × (s₁.sessions ≡ s.sessions)
  unfolding served
  served-lem now project query none s = (refl, refl, refl, refl)
  served-lem now project query (some t) s = (refl, refl, refl, refl)

  -- A prefetch answers the recall that waits for its session, or searches where none does; it uses the
  -- waiting recall up.
  handle_prefetch-served :
      (later : Time) (id : String) (other : Text) (session : SessionState) (s : Server S)
      → session_for id s ≡ some session
      → let waiting = lookup id s.prefetch_cache in
        let (cold, searched) = build_prefetch later session.project_id other s.store in
        let (r, s₁) = handle_prefetch later id other s in
        (r ≡ ok (text_or cold waiting))
        × (s₁.store ≡ store_or searched s.store waiting)
        × (lookup id s₁.prefetch_cache ≡ none)
        × (s₁.sessions ≡ s.sessions)
  unfolding handle_prefetch take_prefetch
  handle_prefetch-served later id other session s h =
      let emptied = record s { prefetch_cache = delete id s.prefetch_cache } in
      let waiting = lookup id s.prefetch_cache in
      let l = lookup-delete id id s.prefetch_cache in
      let gone : lookup id (delete id s.prefetch_cache) ≡ none =
        ground (arith, l, string_eq.beq_iff id id) in
      let (answer, stored, cache, sessions) =
        served-lem later session.project_id other waiting emptied in
      rw h (answer, stored, rw cache gone, sessions)

  -- For a session that has started, a request to queue a recall changes nothing and starts a goroutine. A
  -- prefetch that comes before the goroutine is done does not get its recall: it answers an older one that
  -- waits, or searches. Whenever the goroutine has retrieved, and whatever was done by the time it stores
  -- what it found, the session still being there, the next prefetch answers that recall, whatever its own
  -- question is, and searches only where it is empty and no older one waits. Either prefetch uses the
  -- recall up, so that the one after it finds none.
  pub queued_is_served :
      (now later : Time) (id : String) (query other : Text) (session : SessionState)
      (s during after : Server S)
      → session_for id s ≡ some session
      → session_for id after ≡ some session
      → let job : WarmJob = record {
        session_id = id;
        project_id = session.project_id;
        query = query;
      } in
        let text = (warm_text now job during).0 in
        let kept = if is_empty text then lookup id after.prefetch_cache else some text in
        let (early, searched_early) = build_prefetch later session.project_id other s.store in
        let (cold, searched) = build_prefetch later session.project_id other after.store in
        let (r, s₁) = handle_prefetch later id other s in
        let (r', s₂) = handle_prefetch later id other (keep_prefetch job text after) in
        (handle_queue_prefetch id query s ≡ (ok job, s))
        × (r ≡ ok (text_or early (lookup id s.prefetch_cache)))
        × (lookup id s₁.prefetch_cache ≡ none)
        × (r' ≡ ok (text_or cold kept))
        × (s₂.store ≡ store_or searched after.store kept)
        × (lookup id s₂.prefetch_cache ≡ none)
        × (s₂.sessions ≡ after.sessions)
  unfolding handle_queue_prefetch session_for
  queued_is_served now later id query other session s during after h k =
      let job : WarmJob = record {
        session_id = id;
        project_id = session.project_id;
        query = query;
      } in
      let text = (warm_text now job during).0 in
      let (early, _, early_gone, _) = handle_prefetch-served later id other session s h in
      let (waits, kept, same) = keep_prefetch-cache job text after in
      let known : session_for id (keep_prefetch job text after) ≡ some session =
        ap (λ c. lookup id c) same ∙ k in
      let (answer, stored, gone, sessions_kept) =
        handle_prefetch-served later id other session (keep_prefetch job text after) known in
      let find = build_prefetch later session.project_id other in
      (
        rw h refl,
        early,
        early_gone,
        answer ∙ ap₂ (λ st w. ok (text_or (find st).0 w)) kept waits,
        stored ∙ ap₂ (λ st w. store_or (find st).1 st w) kept waits,
        gone,
        sessions_kept ∙ same,
      )
