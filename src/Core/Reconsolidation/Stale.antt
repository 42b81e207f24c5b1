-- ===== src/Core/Reconsolidation/Stale.antt =====
-- A user's correction of a memory in internal/core/reconsolidation_engine.go, on the in-memory store.
use vatbrain.Prelude.{◌≡◌, refl, ap, true, false, some, nat_eq, nat_beq_iff, ◌==◌, if◌then◌else◌}
use vatbrain.Prelude.Dict.{lookup, lookup-insert}
use vatbrain.Float.{Float64}
use vatbrain.Models.Common.{Uuid, Time}
use vatbrain.Models.Episodic.{EpisodicMemory}
use vatbrain.Store.Memory.Backend.{memory_store}
use vatbrain.Store.Memory.Episodics.{
  get_episodic, update_episodic_weight, touch_episodic, write_episodic,
}
use vatbrain.Store.Memory.State.{Store}
use vatbrain.Core.Reconsolidation.{
  more_trusted, CorrectionDetail, ReconsolidationEngine, process_episodic,
}

module _ {W : Type 0} ⦃d : Float64 W⦄ (engine : ReconsolidationEngine W)
    (detail : CorrectionDetail) where
  -- Correcting a stored memory multiplies its weight by the boost, whoever corrects. If it is not the
  -- user, the memory's last access becomes the time of the correction; if it is, the memory keeps
  -- the last access that it had.
  pub process_episodic-access :
      (id : Uuid) (now : Time) (s : Store W) (m : EpisodicMemory W)
      → lookup id s.episodics ≡ some m
      → m.id ≡ id
      → let by_user = (process_episodic memory_store engine detail true id now s).1 in
        let inferred = (process_episodic memory_store engine detail false id now s).1 in
        ((a : EpisodicMemory W) × (lookup id by_user.episodics ≡ some a)
          × (a.weight ≡ d.mul m.weight engine.correction_boost)
          × (a.last_accessed_at ≡ m.last_accessed_at))
        × ((b : EpisodicMemory W) × (lookup id inferred.episodics ≡ some b)
            × (b.weight ≡ d.mul m.weight engine.correction_boost)
            × (b.last_accessed_at ≡ some now))
  unfolding process_episodic get_episodic update_episodic_weight touch_episodic write_episodic
  process_episodic-access id now s m e same =
      let self : (id == id) ≡ true = (nat_beq_iff id id).1 refl in
      let weight = d.mul m.weight engine.correction_boost in
      let raised : EpisodicMemory W = record (more_trusted m) {
        surprise_score =
            if d.lt m.surprise_score (d.ratio 7 10) then d.ratio 7 10 else m.surprise_score;
        weight = weight;
      } in
      let touched : EpisodicMemory W = record m { weight = weight; last_accessed_at = some now } in
      (
        (raised, rw (e, same, e, lookup-insert, self), refl, refl),
        (
          touched,
          rw (e, same, e, lookup-insert, self, lookup-insert, self)
              (ap (λ k. some (record touched { id = k })) same),
          refl,
          refl,
        ),
      )
