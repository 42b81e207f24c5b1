-- ===== src/Core/Extractor/Merge/Kept.antt =====
-- What the deduplication of internal/core/pitfall_extractor.go keeps of the pitfalls that it joins.
use mathlib.Core.List.{Perm, append_assoc}
use mathlib.Core.List.Perm
use mathlib.Core.Path.{subst}
use vatbrain.Prelude.{
  length-map, ℕ, zero, suc, ◌+◌, ◌≤◌, ◌≡◌, refl, sym, ap, ◌∙◌, inl, inr, Bool, Bool-cases, not,
  List, [], ◌∷◌, ◌++◌, Option, length, keep, length-keep-le, map, ltb, leb, arith,
}
use vatbrain.Prelude.Text.{Text}
use vatbrain.Float.{Float64}
use vatbrain.Models.Common.{Uuid}
use vatbrain.Models.Pitfall.{PitfallMemory}
use vatbrain.Core.Extractor.Cluster.Joined.{swap-perm}
use vatbrain.Core.Extractor.Merge.{
  Signed, absorb, merge_pitfall, merge_all, merge_pitfall_group, pitfalls_of, signed, same_pitfall,
  merge_groups, deduplicate_pitfalls,
}

module _ {W : Type 0} where
  -- how often the pitfalls occurred, all together
  abbrev pub occurrences : List (PitfallMemory W) → ℕ
  occurrences [] = 0
  occurrences (p ∷ ps) = p.occurrence_count + occurrences ps

  -- the memories that the pitfalls stand on
  abbrev pub sources : List (PitfallMemory W) → List Uuid
  sources [] = []
  sources (p ∷ ps) = p.source_episodic_ids ++ sources ps

  -- The second list of pitfalls accounts for the first.
  pub record Accounts (before after : List (PitfallMemory W)) : Type 0 where
    pub counted : occurrences after ≡ occurrences before
    pub traced : Perm (sources after) (sources before)

  Accounts-refl : (ps : List (PitfallMemory W)) → Accounts ps ps
  Accounts-refl ps = record { counted = refl; traced = Perm.refl _ }

  Accounts-trans :
      (ps qs rs : List (PitfallMemory W)) → Accounts ps qs → Accounts qs rs → Accounts ps rs
  Accounts-trans ps qs rs a b = record {
    counted = b.counted ∙ a.counted;
    traced = Perm.trans b.traced a.traced;
  }

  occurrences-append :
      (ps qs : List (PitfallMemory W)) → occurrences (ps ++ qs) ≡ occurrences ps + occurrences qs
  occurrences-append [] qs = omega arith
  occurrences-append (p ∷ ps) qs = omega (arith, occurrences-append ps qs)

  sources-append : (ps qs : List (PitfallMemory W)) → sources (ps ++ qs) ≡ sources ps ++ sources qs
  sources-append [] qs = refl
  sources-append (p ∷ ps) qs =
      ap (λ l. p.source_episodic_ids ++ l) (sources-append ps qs)
      ∙ sym (append_assoc p.source_episodic_ids (sources ps) (sources qs))

  Accounts-append :
      (ps ps' qs qs' : List (PitfallMemory W))
      → Accounts ps ps'
      → Accounts qs qs'
      → Accounts (ps ++ qs) (ps' ++ qs')
  Accounts-append ps ps' qs qs' a b = record {
    counted =
        omega (arith, occurrences-append ps qs, occurrences-append ps' qs', a.counted, b.counted);
    traced = rw (sources-append, sources-append) (Perm.append a.traced b.traced);
  }

  -- One round joins two pitfalls.
  merge_pitfall-Accounts :
      (p o : PitfallMemory W) (rest : List (PitfallMemory W))
      → Accounts (p ∷ o ∷ rest) (merge_pitfall p o ∷ rest)
  unfolding merge_pitfall absorb
  merge_pitfall-Accounts p o rest =
      let a = p.source_episodic_ids in
      let b = o.source_episodic_ids in
      elim (Bool-cases (ltb p.occurrence_count o.occurrence_count)) [
        | inl e ↦ rw e (record {
          counted = omega arith;
          traced =
              subst (λ l. Perm l (a ++ (b ++ sources rest))) (sym (append_assoc b a (sources rest)))
                (swap-perm b a (sources rest));
        })
        | inr e ↦ rw e (record {
          counted = omega arith;
          traced =
              subst (λ l. Perm l (a ++ (b ++ sources rest))) (sym (append_assoc a b (sources rest)))
                (Perm.refl _);
        })
      ]

  merge_all-Accounts :
      (p : PitfallMemory W) (others : List (PitfallMemory W))
      → Accounts (p ∷ others) (merge_all p others ∷ [])
  unfolding merge_all
  merge_all-Accounts p [] = Accounts-refl (p ∷ [])
  merge_all-Accounts p (o ∷ os) =
      Accounts-trans (p ∷ o ∷ os) (merge_pitfall p o ∷ os) (merge_all p (o ∷ os) ∷ [])
        (merge_pitfall-Accounts p o os) (merge_all-Accounts (merge_pitfall p o) os)

  -- Taking some pitfalls to the front changes nothing.
  split-Accounts :
      (test : Signed W → Bool) (ss : List (Signed W))
      → Accounts
          (pitfalls_of ss)
          (pitfalls_of (keep test ss) ++ pitfalls_of (keep (λ o. not (test o)) ss))
  unfolding pitfalls_of
  split-Accounts test [] = Accounts-refl []
  split-Accounts test (s ∷ ss) =
      let ih = split-Accounts test ss in
      let ps = pitfalls_of (keep test ss) in
      let qs = pitfalls_of (keep (λ o. not (test o)) ss) in
      elim (Bool-cases (test s)) [
        | inl e ↦ rw e (record {
          counted = omega (arith, ih.counted);
          traced = Perm.append_left s.pitfall.source_episodic_ids ih.traced;
        })
        | inr e ↦ rw e (
            let counted = ih.counted in
            record {
              counted = omega (
                arith,
                counted,
                occurrences-append ps qs,
                occurrences-append ps (s.pitfall ∷ qs),
              );
              traced =
                  let a = s.pitfall.source_episodic_ids in
                  let back =
                    subst (λ l. Perm l (sources (pitfalls_of ss))) (sources-append ps qs)
                      ih.traced in
                  rw sources-append
                    (Perm.trans (swap-perm (sources ps) a (sources qs)) (Perm.append_left a back));
            })
      ]

module _ {W : Type 0} ⦃d : Float64 W⦄ where
  merge_groups-Accounts :
      (threshold : W) (n : ℕ) (ss : List (Signed W))
      → length ss ≤ n
      → Accounts (pitfalls_of ss) (map merge_pitfall_group (merge_groups threshold n ss))
  unfolding merge_groups merge_pitfall_group pitfalls_of
  merge_groups-Accounts threshold zero [] h = Accounts-refl []
  merge_groups-Accounts threshold zero (s ∷ ss) h = absurd (omega arith)
  merge_groups-Accounts threshold (suc n) [] h = Accounts-refl []
  merge_groups-Accounts threshold (suc n) (s ∷ ss) h =
      let test = same_pitfall threshold s in
      let ps = pitfalls_of (keep test ss) in
      let rest = keep (λ o. not (test o)) ss in
      let out = map merge_pitfall_group (merge_groups threshold n rest) in
      Accounts-trans (s.pitfall ∷ pitfalls_of ss) (s.pitfall ∷ (ps ++ pitfalls_of rest))
        (merge_all s.pitfall ps ∷ out)
        (Accounts-append (s.pitfall ∷ []) (s.pitfall ∷ []) (pitfalls_of ss) (ps ++ pitfalls_of rest)
          (Accounts-refl (s.pitfall ∷ [])) (split-Accounts test ss))
        (Accounts-append (s.pitfall ∷ ps) (merge_all s.pitfall ps ∷ []) (pitfalls_of rest) out
          (merge_all-Accounts s.pitfall ps)
          (merge_groups-Accounts threshold n rest
            (omega (arith, length-keep-le (λ o. not (test o)) ss))))

  pitfalls_of-signed :
      (embedder : Text → Option (List W)) (ps : List (PitfallMemory W))
      → (pitfalls_of (signed embedder ps) ≡ ps) × (length (signed embedder ps) ≡ length ps)
  unfolding signed pitfalls_of
  pitfalls_of-signed embedder [] = (refl, refl)
  pitfalls_of-signed embedder (p ∷ ps) =
      let (e, n) = pitfalls_of-signed embedder ps in (ap (λ l. p ∷ l) e, ap suc n)

  length-merge_groups-le :
      (threshold : W) (n : ℕ) (ss : List (Signed W))
      → length (merge_groups threshold n ss) ≤ length ss
  unfolding merge_groups
  length-merge_groups-le threshold zero ss = omega arith
  length-merge_groups-le threshold (suc n) [] = omega arith
  length-merge_groups-le threshold (suc n) (s ∷ ss) =
      let rest = keep (λ o. not (same_pitfall threshold s o)) ss in
      omega (
        arith,
        length-keep-le (λ o. not (same_pitfall threshold s o)) ss,
        length-merge_groups-le threshold n rest,
      )

  -- Joining pitfalls that are alike loses nothing: there are no more pitfalls than before, their
  -- occurrences add up to the same, and together they stand on the same memories, each as often.
  pub deduplicate_pitfalls-Accounts :
      (embedder : Text → Option (List W)) (threshold : W) (ps : List (PitfallMemory W))
      → (length (deduplicate_pitfalls embedder threshold ps) ≤ length ps)
        × Accounts ps (deduplicate_pitfalls embedder threshold ps)
  unfolding deduplicate_pitfalls
  deduplicate_pitfalls-Accounts embedder threshold ps =
      let ss = signed embedder ps in
      let (e, n) = pitfalls_of-signed embedder ps in
      let groups = merge_groups threshold (length ps) ss in
      elim (Bool-cases (leb (length ps) 1)) [
        | inl f ↦ rw f (omega arith, Accounts-refl ps)
        | inr f ↦ rw f (
          omega (
            arith,
            length-map merge_pitfall_group groups,
            length-merge_groups-le threshold (length ps) ss,
            n,
          ),
          subst (λ l. Accounts l (map merge_pitfall_group groups)) e
              (merge_groups-Accounts threshold (length ps) ss (omega (arith, n))),
        )
      ]
