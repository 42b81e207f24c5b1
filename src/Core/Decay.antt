-- ===== src/Core/Decay.antt =====
-- internal/core/weight_decay.go: how weights fade with time.
use vatbrain.Prelude.{Bool, List, [], ◌∷◌, if◌then◌else◌}
use vatbrain.Float.{Float64, zero_f, one_f, neg, hours_since}
use vatbrain.Models.Common.{Time, after}

pub record WeightDecayEngine (W : Type 0) : Type 0 where
  pub lambda_decay : W
  pub alpha_experience : W
  pub beta_activity : W
  pub cooling_threshold : W
  pub surprise_half_life_boost : W

last_access : Time → List Time → Time
last_access t [] = t
last_access t (u ∷ us) = last_access u us

module _ {W : Type 0} ⦃d : Float64 W⦄ where
  -- `DefaultWeightDecayEngine`
  abbrev pub default_weight_decay_engine : WeightDecayEngine W
  default_weight_decay_engine = record {
    lambda_decay = d.ratio 1 10;
    alpha_experience = d.ratio 5 1000;
    beta_activity = d.ratio 5 100;
    cooling_threshold = d.ratio 1 100;
    surprise_half_life_boost = d.ratio 2 1;
  }

  unfoldable pub days_between : Time → Time → W
  days_between t u =
      if after u t
      then d.div (hours_since u t) (d.ratio 24 1)
      else d.div (hours_since t u) (d.ratio 24 1)

  frequency_loop : WeightDecayEngine W → Time → W → List Time → W
  frequency_loop e now total [] = total
  frequency_loop e now total (ts ∷ rest) =
      frequency_loop e now (d.add total (d.exp (d.mul (neg e.lambda_decay) (days_between ts now))))
        rest

  unfoldable pub effective_frequency : WeightDecayEngine W → List Time → Time → W
  unfolding frequency_loop
  effective_frequency e accesses now = frequency_loop e now zero_f accesses

  -- `Weight`
  unfoldable pub decayed_weight : WeightDecayEngine W → W → Time → Time → Time → W
  decayed_weight e freq created accessed now =
      d.mul (d.mul freq (d.exp (d.mul (neg e.alpha_experience) (days_between created now))))
        (d.exp (d.mul (neg e.beta_activity) (days_between accessed now)))

  unfoldable pub is_cooled : WeightDecayEngine W → W → Bool
  is_cooled e weight = d.lt weight e.cooling_threshold

  unfoldable pub surprise_decay_scale : WeightDecayEngine W → W → W
  surprise_decay_scale e surprise =
      let boost =
        if d.le e.surprise_half_life_boost zero_f
        then d.ratio 2 1
        else e.surprise_half_life_boost in
      let s = if d.lt one_f surprise then one_f else surprise in
      let scale = d.div one_f (d.add one_f (d.mul boost s)) in
      if d.le surprise zero_f then one_f else if d.lt one_f scale then one_f else scale

  unfoldable pub weight_with_surprise : WeightDecayEngine W → W → Time → Time → Time → W → W
  weight_with_surprise e freq created accessed now surprise =
      let scale = surprise_decay_scale e surprise in
      d.mul
        (d.mul freq
          (d.exp (d.mul (d.mul (neg e.alpha_experience) (days_between created now)) scale)))
        (d.exp (d.mul (d.mul (neg e.beta_activity) (days_between accessed now)) scale))

  -- `ComputeFull`
  unfoldable pub compute_full : WeightDecayEngine W → List Time → Time → Time → W × W
  unfolding last_access
  compute_full e [] created now = (zero_f, zero_f)
  compute_full e (t ∷ ts) created now =
      let freq = effective_frequency e (t ∷ ts) now in
      (freq, decayed_weight e freq created (last_access t ts) now)
