-- ===== src/Store/Memory/Feedback.antt =====
-- What the methods of internal/store/memory/pitfall.go keep: weights in range, and the escape valve.
use mathlib.Core.Path.{subst}
use vatbrain.Prelude.{
  sym, ℕ, ◌≤◌, ◌<◌, ◌≡◌, refl, inl, inr, All, Option-cases, Bool-cases, nat_eq, arith,
}
use vatbrain.Prelude.Dict.{values, lookup, All-values-insert, lookup-All}
use vatbrain.Prelude.Int.{ℤ}
use vatbrain.Float.{Float64, one_f, neg}
use vatbrain.Float.Clamp.{IsUnit, clamp01, clamp01-IsUnit}
use vatbrain.Float.Laws.{IsOrdered, IsArith, ◌≼◌}
use vatbrain.Models.Common.{Uuid, Time}
use vatbrain.Models.Pitfall.{
  PitfallMemory, PitfallStatus, PitfallFeedbackAction, is_valid_feedback, weight_delta,
  pitfall_protection_level_max,
}
use vatbrain.Store.Memory.Pitfalls.{
  write_pitfall, touch_pitfall, update_pitfall_weight, update_pitfall_status, add_pitfall_counters,
  with_feedback, apply_pitfall_feedback, mark_pitfall_obsolete, with_status,
}
use vatbrain.Store.Memory.State.{Store, change_pitfall}

module _ {W : Type 0} ⦃d : Float64 W⦄ where
  -- The range that a stored pitfall keeps.
  pub record InRange (p : PitfallMemory W) : Type 0 where
    pub weight : IsUnit p.weight
    pub protection : p.protection_level ≤ pitfall_protection_level_max

  abbrev pub PitfallsInRange : Store W → Type 0
  PitfallsInRange s = All InRange (values s.pitfalls)

  -- A change that keeps the range of each pitfall keeps that of the store, found or not.
  change-InRange :
      (id : Uuid) (f : PitfallMemory W → PitfallMemory W) (s : Store W)
      → ((p : PitfallMemory W) → InRange p → InRange (f p))
      → PitfallsInRange s
      → PitfallsInRange (change_pitfall id f s).1
  change-InRange id f s keeps h = elim (Option-cases (lookup id s.pitfalls)) [
    | inl e ↦ rw e h
    | inr (p, e) ↦ rw e (
        All-values-insert InRange id (f p) s.pitfalls
          (keeps p (lookup-All InRange id s.pitfalls h e)) h)
  ]

  same_range :
      {p q : PitfallMemory W}
      → q.weight ≡ p.weight
      → q.protection_level ≡ p.protection_level
      → InRange p
      → InRange q
  same_range e f h = record {
    weight = subst IsUnit (sym e) h.weight;
    protection = rw f h.protection;
  }

  module _ (laws : IsOrdered W) (laws' : IsArith W) where
    ratio_bounds : (a b : ℕ) → 0 < b → a ≤ b → (neg one_f ≼ d.ratio a b) × (d.ratio a b ≼ one_f)
    ratio_bounds a b h k =
        (laws'.neg_one_le _ (laws.ratio_nonneg a b h), laws.ratio_le a b 1 h (omega arith))

    weight_delta_bounds :
        (a : PitfallFeedbackAction)
        → (neg one_f ≼ weight_delta {W = W} a) × (weight_delta {W = W} a ≼ one_f)
    unfolding weight_delta
    weight_delta_bounds PitfallFeedbackAction.adopted =
        ratio_bounds 1 10 (omega arith) (omega arith)
    weight_delta_bounds PitfallFeedbackAction.ignored =
        laws'.neg_bounds _ (laws.ratio_nonneg 1 10 (omega arith))
          (laws.ratio_le 1 10 1 (omega arith) (omega arith))
    weight_delta_bounds PitfallFeedbackAction.recurred =
        ratio_bounds 5 100 (omega arith) (omega arith)
    weight_delta_bounds (PitfallFeedbackAction.other t) =
        ratio_bounds 0 1 (omega arith) (omega arith)

    feedback_weight-IsUnit :
        (a : PitfallFeedbackAction) (w : W) → IsUnit w → IsUnit (clamp01 (d.add w (weight_delta a)))
    feedback_weight-IsUnit a w h =
        let (lo, hi) = weight_delta_bounds a in
        clamp01-IsUnit laws _ (
          laws'.add_num w (weight_delta a) h.zero_le h.le_one lo
            (laws.le_trans _ _ _ hi (laws.ratio_le 1 1 2 (omega arith) (omega arith))))

    with_feedback-InRange :
        (a : PitfallFeedbackAction) (now : Time) (p : PitfallMemory W)
        → InRange p
        → InRange (with_feedback a now p)
    unfolding with_feedback
    with_feedback-InRange PitfallFeedbackAction.recurred now p h = record {
      weight = feedback_weight-IsUnit PitfallFeedbackAction.recurred p.weight h.weight;
      protection = ground arith;
    }
    with_feedback-InRange a now p h = record {
      weight = feedback_weight-IsUnit a p.weight h.weight;
      protection = h.protection;
    }

    apply_pitfall_feedback-InRange :
        (id : Uuid) (a : PitfallFeedbackAction) (now : Time) (s : Store W)
        → PitfallsInRange s
        → PitfallsInRange (apply_pitfall_feedback id a now s).1
    unfolding apply_pitfall_feedback
    apply_pitfall_feedback-InRange id a now s h = elim (Bool-cases (is_valid_feedback a)) [
      | inl e ↦ rw e (change-InRange id (with_feedback a now) s (with_feedback-InRange a now) h)
      | inr e ↦ rw e h
    ]

  -- A call of the pitfall interface that changes the store.
  pub data Step (s : Store W) : Store W → Type 0 where
    wrote : (p : PitfallMemory W) → InRange p → Step s (write_pitfall p s).1
    touched : (id : Uuid) (now : Time) → Step s (touch_pitfall id now s).1
    reweighed :
        (id : Uuid) (w : W) (now : Time) → IsUnit w → Step s (update_pitfall_weight id w now s).1
    moved :
        (id : Uuid) (st : PitfallStatus) (now : Time) → Step s (update_pitfall_status id st now s).1
    counted :
        (id : Uuid) (shown suppressed : ℤ) (now : Time)
        → Step s (add_pitfall_counters id shown suppressed now s).1
    fed_back :
        (id : Uuid) (a : PitfallFeedbackAction) (now : Time)
        → Step s (apply_pitfall_feedback id a now s).1
    retired : (id : Uuid) (at now : Time) → Step s (mark_pitfall_obsolete id at now s).1

  pub data Reach (s : Store W) : Store W → Type 0 where
    here : Reach s s
    next : {t u : Store W} → Reach s t → Step t u → Reach s u

  module _ (laws : IsOrdered W) (laws' : IsArith W) where
    Step-InRange : {s t : Store W} → Step s t → PitfallsInRange s → PitfallsInRange t
    unfolding write_pitfall touch_pitfall update_pitfall_weight update_pitfall_status with_status
        add_pitfall_counters mark_pitfall_obsolete
    Step-InRange {s} (wrote p k) h = All-values-insert InRange p.id p s.pitfalls k h
    Step-InRange {s} (touched id now) h = change-InRange id _ s (λ p. same_range refl refl) h
    Step-InRange {s} (reweighed id w now k) h =
        change-InRange id _ s (λ p i. record { weight = k; protection = i.protection }) h
    Step-InRange {s} (moved id st now) h = change-InRange id _ s (λ p. same_range refl refl) h
    Step-InRange {s} (counted id a b now) h = change-InRange id _ s (λ p. same_range refl refl) h
    Step-InRange {s} (fed_back id a now) h = apply_pitfall_feedback-InRange laws laws' id a now s h
    Step-InRange {s} (retired id at now) h = change-InRange id _ s (λ p. same_range refl refl) h

    -- Whatever calls of the pitfall interface are made, in whatever order, if every stored pitfall has a
    -- weight in [0, 1] and a protection level of at most 3, and so has every one that is written, and
    -- every weight that is set is in [0, 1], then every stored pitfall has them in the end, after any
    -- feedback.
    pub pitfalls_in_range : {s t : Store W} → PitfallsInRange s → Reach s t → PitfallsInRange t
    pitfalls_in_range h here = h
    pitfalls_in_range h (next r st) = Step-InRange st (pitfalls_in_range h r)
