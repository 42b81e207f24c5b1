-- ===== src/Store/Memory/Matched.antt =====
-- What SearchEpisodic of internal/store/memory/memory_store.go looks for, said without its tests.
use vatbrain.Prelude.{
  ◌≤◌, ◌≡◌, ◌⊎◌, refl, Bool, true, false, not, ◌&&◌, inl, inr, Bool-cases, String, string_eq,
  nat_eq, ◌==◌, ◌!=◌, Option, none, is_some, is_some-none, arith, if◌then◌else◌,
}
use vatbrain.Float.{Float64}
use vatbrain.Models.Common.{Time, is_zero, before, after}
use vatbrain.Models.Episodic.{EpisodicMemory, effective_occurred_at}
use vatbrain.Store.{EpisodicSearchRequest}
use vatbrain.Store.Memory.Search.{skipped}

abbrev asks : String → String → Bool
asks x y = x != "" && y != x

asks-false : (x y : String) → asks x y ≡ false → (x ≡ "") ⊎ (y ≡ x)
asks-false x y h = elim (Bool-cases (x == "")) [
  | inl e ↦ inl ((string_eq.beq_iff x "").0 e)
  | inr e ↦ inr (ground (arith, string_eq.beq_iff y x, e, h))
]

false-asks : (x y : String) → (x ≡ "") ⊎ (y ≡ x) → asks x y ≡ false
false-asks x y (inl e) = rw e refl
false-asks x y (inr e) = ground (arith, (string_eq.beq_iff y x).1 e)

starts-false : (a t : Time) → not (is_zero a) && before t a ≡ false → (a ≡ 0) ⊎ (a ≤ t)
starts-false a t h = elim (Bool-cases (is_zero a)) [
  | inl e ↦ inl (ground (arith, e))
  | inr e ↦ inr (ground (arith, e, h))
]

ends-false : (a t : Time) → not (is_zero a) && after t a ≡ false → (a ≡ 0) ⊎ (t ≤ a)
ends-false a t h = elim (Bool-cases (is_zero a)) [
  | inl e ↦ inl (ground (arith, e))
  | inr e ↦ inr (ground (arith, e, h))
]

active-false :
    {A : Type 0} (b : Bool) (o : Option A) → not b && is_some o ≡ false → (b ≡ true) ⊎ (o ≡ none)
active-false true o h = inl refl
active-false false o h = inr (is_some-none o h)

false-starts : (a t : Time) → (a ≡ 0) ⊎ (a ≤ t) → not (is_zero a) && before t a ≡ false
false-starts a t (inl e) = rw e refl
false-starts a t (inr h) = ground (arith, h)

false-ends : (a t : Time) → (a ≡ 0) ⊎ (t ≤ a) → not (is_zero a) && after t a ≡ false
false-ends a t (inl e) = rw e refl
false-ends a t (inr h) = ground (arith, h)

false-active :
    {A : Type 0} (b : Bool) (o : Option A) → (b ≡ true) ⊎ (o ≡ none) → not b && is_some o ≡ false
false-active b o (inl e) = rw e refl
false-active b o (inr e) = rw e (ground arith)

module _ {W : Type 0} ⦃d : Float64 W⦄ where
  -- when what a memory tells of happened, which is when it was made where it does not say
  abbrev pub happened_at : EpisodicMemory W → Time
  happened_at m = if m.occurred_at == 0 then m.created_at else m.occurred_at

  -- What the request asks of a memory; an empty name, and the time 0, ask for nothing.
  pub record IsMatch (req : EpisodicSearchRequest W) (m : EpisodicMemory W) : Type 0 where
    pub project : (req.project_id ≡ "") ⊎ (m.project_id ≡ req.project_id)
    pub language : (req.language ≡ "") ⊎ (m.language ≡ req.language)
    pub task : (req.task_type ≡ "") ⊎ (m.task_type ≡ req.task_type)
    pub weight : d.lt m.weight req.min_weight ≡ false
    pub active : (req.include_obsolete ≡ true) ⊎ (m.obsoleted_at ≡ none)
    pub from : (req.occurred_after ≡ 0) ⊎ (req.occurred_after ≤ happened_at m)
    pub until : (req.occurred_before ≡ 0) ⊎ (happened_at m ≤ req.occurred_before)

  pub skipped-IsMatch :
      (req : EpisodicSearchRequest W) (m : EpisodicMemory W) → skipped req m ≡ false → IsMatch req m
  unfolding skipped effective_occurred_at
  skipped-IsMatch req m h = record {
    project = asks-false req.project_id m.project_id (ground (arith, h));
    language = asks-false req.language m.language (ground (arith, h));
    task = asks-false req.task_type m.task_type (ground (arith, h));
    weight = ground (arith, h);
    active = active-false req.include_obsolete m.obsoleted_at (ground (arith, h));
    from = starts-false req.occurred_after (effective_occurred_at m) (ground (arith, h));
    until = ends-false req.occurred_before (effective_occurred_at m) (ground (arith, h));
  }

  pub IsMatch-skipped :
      (req : EpisodicSearchRequest W) (m : EpisodicMemory W) → IsMatch req m → skipped req m ≡ false
  unfolding skipped effective_occurred_at
  IsMatch-skipped req m h =
      let p = false-asks req.project_id m.project_id h.project in
      let l = false-asks req.language m.language h.language in
      let t = false-asks req.task_type m.task_type h.task in
      let a = false-active req.include_obsolete m.obsoleted_at h.active in
      let f = false-starts req.occurred_after (effective_occurred_at m) h.from in
      let u = false-ends req.occurred_before (effective_occurred_at m) h.until in
      rw (p, l, t, h.weight, a, f, u) refl
