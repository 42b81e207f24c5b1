-- ===== src/Mcp/Workbench/Escape.antt =====
-- The escape valve of internal/mcp/pitfall_workbench.go: a suppressed pitfall is not injected.
use mathlib.Core.Path.{subst}
use vatbrain.Prelude.{
  nat_beq_iff, ◌≡◌, ◌≢◌, ◌⊎◌, refl, sym, ◌∙◌, inl, inr, false, String, Option, none, some,
  Option-cases, Bool-cases, nat_eq, arith,
}
use vatbrain.Prelude.Dict.{lookup, lookup-insert}
use vatbrain.Prelude.Int.{ℤ, pos}
use vatbrain.Prelude.Result.{ok, bind-ok, Action, Done, pure, ◌>>◌, ◌>>!◌}
use vatbrain.Float.{Float64}
use vatbrain.Models.Common.{Uuid, Time}
use vatbrain.Models.Pitfall.{
  PitfallMemory, PitfallStatus, PitfallFeedbackAction, is_valid_feedback, normalize, injectable,
}
use vatbrain.Store.Memory.Backend.{memory_store}
use vatbrain.Store.Memory.Pitfalls.{
  write_pitfall, get_pitfall, touch_pitfall, update_pitfall_weight, update_pitfall_status,
  add_pitfall_counters, with_feedback, with_status, apply_pitfall_feedback, mark_pitfall_obsolete,
}
use vatbrain.Store.Memory.State.{Store, change_pitfall}
use vatbrain.Mcp.Workbench.{suppress_pitfall, link_pitfall_entity, linked}
use vatbrain.Mcp.Workbench.Suppressed.{
  IsSuppressed, IsKeyed, change-IsSuppressed, change-IsKeyed, write-IsKeyed, write-IsSuppressed_ne,
  write-IsSuppressed_found,
}

module _ {W : Type 0} ⦃d : Float64 W⦄ where
  link_cases :
      (parse : String → Option Uuid) (arg entity_arg : Option String) (type : String) (now : Time)
      (s : Store W)
      → let after = (link_pitfall_entity memory_store parse arg entity_arg type now s).1 in
        (after ≡ s)
        ⊎ ((j : Uuid) × (p : PitfallMemory W) × (entity : String) × (lookup j s.pitfalls ≡ some p)
            × (after ≡ (write_pitfall (linked entity type now p) s).1))
  unfolding link_pitfall_entity get_pitfall
  link_cases parse none entity_arg type now s = inl refl
  link_cases parse (some text) none type now s = inl refl
  link_cases parse (some text) (some entity) type now s = elim (Option-cases (parse text)) [
    | inl e ↦ inl (rw e)
    | inr (j, e) ↦ elim (Option-cases (lookup j s.pitfalls)) [
      | inl n ↦ inl (rw (e, n))
      | inr (p, f) ↦ inr (j, p, entity, f, rw (e, f))
    ]
  ]

  -- A call that neither moves the pitfall `id` to another status nor writes a pitfall of that id
  -- anew: every other tool and hook of the program.
  pub data Quiet (id : Uuid) (s : Store W) : Store W → Type 0 where
    touched : (j : Uuid) (now : Time) → Quiet id s (touch_pitfall j now s).1
    reweighed : (j : Uuid) (w : W) (now : Time) → Quiet id s (update_pitfall_weight j w now s).1
    counted :
        (j : Uuid) (shown suppressed : ℤ) (now : Time)
        → Quiet id s (add_pitfall_counters j shown suppressed now s).1
    fed_back :
        (j : Uuid) (a : PitfallFeedbackAction) (now : Time)
        → Quiet id s (apply_pitfall_feedback j a now s).1
    retired : (j : Uuid) (at now : Time) → Quiet id s (mark_pitfall_obsolete j at now s).1
    linked_to :
        (parse : String → Option Uuid) (arg entity_arg : Option String) (type : String) (now : Time)
        → Quiet id s (link_pitfall_entity memory_store parse arg entity_arg type now s).1
    moved_other :
        (j : Uuid) (st : PitfallStatus) (now : Time)
        → j ≢ id
        → Quiet id s (update_pitfall_status j st now s).1
    wrote_other : (p : PitfallMemory W) → p.id ≢ id → Quiet id s (write_pitfall p s).1

  pub data QuietRun (id : Uuid) (s : Store W) : Store W → Type 0 where
    here : QuietRun id s s
    next : {t u : Store W} → QuietRun id s t → Quiet id t u → QuietRun id s u

  abbrev Kept : Uuid → Store W → Type 0
  Kept id s = IsKeyed s × IsSuppressed id s

  change-Kept :
      (id j : Uuid) (f : PitfallMemory W → PitfallMemory W) (s : Store W)
      → ((p : PitfallMemory W) → (f p).id ≡ p.id)
      → ((p : PitfallMemory W) → (f p).status ≡ p.status)
      → Kept id s
      → Kept id (change_pitfall j f s).1
  change-Kept id j f s same_id same (v, h) =
      (change-IsKeyed j f s same_id v, change-IsSuppressed id j f s same h)

  change_ne-IsSuppressed :
      (id j : Uuid) (f : PitfallMemory W → PitfallMemory W) (s : Store W)
      → j ≢ id
      → IsSuppressed id s
      → IsSuppressed id (change_pitfall j f s).1
  change_ne-IsSuppressed id j f s ne (p, e, st) = elim (Option-cases (lookup j s.pitfalls)) [
    | inl n ↦ rw n (p, e, st)
    | inr (p', e') ↦ rw e' (p, rw lookup-insert (ground (arith, ne)), st)
  ]

  status-with_feedback :
      (a : PitfallFeedbackAction) (now : Time) (p : PitfallMemory W)
      → (with_feedback a now p).status ≡ p.status
  unfolding with_feedback
  status-with_feedback PitfallFeedbackAction.adopted now p = refl
  status-with_feedback _ now p = refl

  id-with_feedback :
      (a : PitfallFeedbackAction) (now : Time) (p : PitfallMemory W)
      → (with_feedback a now p).id ≡ p.id
  unfolding with_feedback
  id-with_feedback PitfallFeedbackAction.adopted now p = refl
  id-with_feedback _ now p = refl

  apply_pitfall_feedback-Kept :
      (id j : Uuid) (a : PitfallFeedbackAction) (now : Time) (s : Store W)
      → Kept id s
      → Kept id (apply_pitfall_feedback j a now s).1
  unfolding apply_pitfall_feedback
  apply_pitfall_feedback-Kept id j a now s h = elim (Bool-cases (is_valid_feedback a)) [
    | inl e ↦ rw e (
        change-Kept id j (with_feedback a now) s (id-with_feedback a now)
          (status-with_feedback a now) h)
    | inr e ↦ rw e h
  ]

  Quiet-Kept : (id : Uuid) {s t : Store W} → Quiet id s t → Kept id s → Kept id t
  unfolding touch_pitfall update_pitfall_weight add_pitfall_counters mark_pitfall_obsolete
      update_pitfall_status with_status linked
  Quiet-Kept id {s} (touched j now) h = change-Kept id j _ s (λ p. refl) (λ p. refl) h
  Quiet-Kept id {s} (reweighed j w now) h = change-Kept id j _ s (λ p. refl) (λ p. refl) h
  Quiet-Kept id {s} (counted j a b now) h = change-Kept id j _ s (λ p. refl) (λ p. refl) h
  Quiet-Kept id {s} (fed_back j a now) h = apply_pitfall_feedback-Kept id j a now s h
  Quiet-Kept id {s} (retired j at now) h = change-Kept id j _ s (λ p. refl) (λ p. refl) h
  Quiet-Kept id {s} (linked_to parse arg entity_arg type now) (v, h) =
      elim (link_cases parse arg entity_arg type now s) [
        | inl e ↦ subst (Kept id) (sym e) (v, h)
        | inr (j, p, entity, f, e) ↦
            let p' = linked entity type now p in
            subst (Kept id) (sym e)
              (write-IsKeyed p' s v, write-IsSuppressed_found id j p p' s v f refl refl h)
      ]
  Quiet-Kept id {s} (moved_other j st now ne) (v, h) =
      (change-IsKeyed j _ s (λ p. refl) v, change_ne-IsSuppressed id j _ s ne h)
  Quiet-Kept id {s} (wrote_other p ne) (v, h) =
      (write-IsKeyed p s v, write-IsSuppressed_ne id p s ne h)

  QuietRun-Kept : (id : Uuid) {s t : Store W} → Kept id s → QuietRun id s t → Kept id t
  QuietRun-Kept id h here = h
  QuietRun-Kept id h (next r st) = Quiet-Kept id st (QuietRun-Kept id h r)

  status-IsSuppressed :
      (id : Uuid) (now : Time) (s : Store W) {p : PitfallMemory W}
      → lookup id s.pitfalls ≡ some p
      → IsSuppressed id (update_pitfall_status id PitfallStatus.suppressed now s).1
  unfolding update_pitfall_status with_status normalize
  status-IsSuppressed id now s {p} e = rw e (
    with_status PitfallStatus.suppressed now p,
    rw (lookup-insert, (nat_beq_iff id id).1 refl),
    refl,
  )

  change_runs :
      (j : Uuid) (f : PitfallMemory W → PitfallMemory W) (s : Store W) {p : PitfallMemory W}
      → lookup j s.pitfalls ≡ some p
      → change_pitfall j f s ≡ (ok tt, (change_pitfall j f s).1)
  change_runs j f s e = rw e

  -- The tool succeeds on a stored pitfall, and leaves it suppressed.
  suppress_pitfall-Kept :
      (parse : String → Option Uuid) (text : String) (id : Uuid) (now : Time) (s : Store W)
      {p : PitfallMemory W}
      → parse text ≡ some id
      → lookup id s.pitfalls ≡ some p
      → IsKeyed s
      → ((suppress_pitfall memory_store parse (some text) now s).0 ≡ ok tt)
        × Kept id (suppress_pitfall memory_store parse (some text) now s).1
  unfolding suppress_pitfall
  suppress_pitfall-Kept parse text id now s {p} e f v =
      let s₁ = (update_pitfall_status id PitfallStatus.suppressed now s).1 in
      let s₂ = (add_pitfall_counters id (pos 0) (pos 1) now s₁).1 in
      let s₃ = (apply_pitfall_feedback id PitfallFeedbackAction.ignored now s₂).1 in
      let k₁ : Kept id s₁ = (
        unfold update_pitfall_status with_status in change-IsKeyed id _ s (λ q. refl) v,
        status-IsSuppressed id now s f,
      ) in
      let k₂ : Kept id s₂ = Quiet-Kept id (counted id (pos 0) (pos 1) now) k₁ in
      let k₃ : Kept id s₃ = Quiet-Kept id (fed_back id PitfallFeedbackAction.ignored now) k₂ in
      let r₁ : update_pitfall_status id PitfallStatus.suppressed now s ≡ (ok tt, s₁) =
        unfold update_pitfall_status in change_runs id _ s f in
      let r₂ : add_pitfall_counters id (pos 0) (pos 1) now s₁ ≡ (ok tt, s₂) =
        unfold add_pitfall_counters in change_runs id _ s₁ k₁.1.1 in
      let last : Action (Store W) Done =
        apply_pitfall_feedback id PitfallFeedbackAction.ignored now >>! pure tt in
      let run : suppress_pitfall memory_store parse (some text) now s ≡ (ok tt, s₃) = rw e (
        bind-ok (update_pitfall_status id PitfallStatus.suppressed now)
          (λ _. add_pitfall_counters id (pos 0) (pos 1) now >> last) s r₁
        ∙ bind-ok (add_pitfall_counters id (pos 0) (pos 1) now) (λ _. last) s₁ r₂) in
      rw run (refl, k₃)

  injectable-suppressed :
      (p : PitfallMemory W) → p.status ≡ PitfallStatus.suppressed → injectable p ≡ false
  unfolding injectable
  injectable-suppressed p e = rw e

  -- Suppressing a stored pitfall succeeds. From then on `GetPitfall` returns a pitfall that may not be
  -- injected, whatever is touched, reweighed, counted, fed back, retired, linked to another entity, or done to
  -- other pitfalls, until its own status is changed or a pitfall of its id is written anew.
  pub suppression_lasts :
      (parse : String → Option Uuid) (text : String) (id : Uuid) (now : Time) (s t : Store W)
      {p : PitfallMemory W}
      → parse text ≡ some id
      → lookup id s.pitfalls ≡ some p
      → IsKeyed s
      → QuietRun id (suppress_pitfall memory_store parse (some text) now s).1 t
      → ((suppress_pitfall memory_store parse (some text) now s).0 ≡ ok tt)
        × ((q : PitfallMemory W) × ((get_pitfall id t).0 ≡ ok q) × (injectable q ≡ false))
  unfolding get_pitfall
  suppression_lasts parse text id now s t e f v run =
      let (done, kept) = suppress_pitfall-Kept parse text id now s e f v in
      let (_, (q, found, st)) = QuietRun-Kept id kept run in
      (done, (q, rw found, injectable-suppressed q st))
