-- ===== src/Core/Extractor/Parse.antt =====
-- The answer of a language model in internal/core/pitfall_extractor.go. The decoding of JSON is a
-- parameter: `json.Unmarshal` changes the value it is given, or fails and may have changed it too.
use vatbrain.Prelude.{
  suc, Bool, String, List, [], ◌∷◌, Option, none, some, take, drop, ltb, if◌then◌else◌,
}
use vatbrain.Prelude.Format.{trim_space, starts_with, index_of, last_index_of}
use vatbrain.Prelude.Result.{Result, ok, err, decode_failed}
use vatbrain.Prelude.Text.{Text, codes}
use vatbrain.Float.{Float64, zero_f}

pub record PitfallLlmOutput (W : Type 0) : Type 0 where
  pub signature : Text
  pub root_cause_category : String
  pub fix_strategy : Text
  pub confidence : W

-- `json.Unmarshal` into an array and into an object
pub record Decoder (W : Type 0) : Type 0 where
  pub array : Text → Option (List (PitfallLlmOutput W))
  pub object : Text → PitfallLlmOutput W → PitfallLlmOutput W × Bool

-- Code fences around the answer are taken off.
unfoldable pub unfenced : Text → Text
unfenced raw =
    let text = trim_space raw in
    let fence = codes "```" in
    let inner : Text = elim (index_of (codes "\n") text) [
      | none ↦ text
      | some i ↦ drop (suc i) text
    ] in
    let body : Text = elim (last_index_of fence inner) [ none ↦ inner | some i ↦ take i inner ] in
    if starts_with text fence then trim_space body else text

-- the text from the first opening brace to the last closing one
unfoldable pub braced : Text → Option Text
braced text = elim (index_of (codes "{") text) [
  | none ↦ none
  | some start ↦ elim (last_index_of (codes "}") text) [
    | none ↦ none
    | some end ↦ if ltb start end then some (drop start (take (suc end) text)) else none
  ]
]

module _ {W : Type 0} ⦃d : Float64 W⦄ where
  unfoldable pub no_output : PitfallLlmOutput W
  no_output = record {
    signature = [];
    root_cause_category = "";
    fix_strategy = [];
    confidence = zero_f;
  }

  more_confident : PitfallLlmOutput W → List (PitfallLlmOutput W) → PitfallLlmOutput W
  more_confident best [] = best
  more_confident best (o ∷ os) =
      more_confident (if d.lt best.confidence o.confidence then o else best) os

  -- `bestPitfallOutput`, on the first output and the others
  unfoldable pub best_pitfall_output :
      PitfallLlmOutput W → List (PitfallLlmOutput W) → PitfallLlmOutput W
  unfolding more_confident
  best_pitfall_output o os =
      let best = more_confident o os in
      if d.lt best.confidence (d.ratio 1 2) then record best { confidence = d.ratio 1 2 } else best

  -- The decoding of an object, with a second attempt on the part in braces.
  unfoldable pub parse_object : Decoder W → Text → Result (PitfallLlmOutput W)
  unfolding no_output braced
  parse_object decoder text =
      let (first, good) = decoder.object text no_output in
      let again : Result (PitfallLlmOutput W) = elim (braced text) [
        | none ↦ err decode_failed
        | some part ↦
            let (second, good') = decoder.object part first in
            if good' then ok second else err decode_failed
      ] in
      if good then ok first else again

  -- `parsePitfallResponse`
  unfoldable pub parse_pitfall_response : Decoder W → Text → Result (PitfallLlmOutput W)
  unfolding unfenced parse_object best_pitfall_output
  parse_pitfall_response decoder raw =
      let text = unfenced raw in
      elim (decoder.array text) [
        | none ↦ parse_object decoder text
        | some os ↦ elim os [
          | [] ↦ parse_object decoder text
          | o ∷ os' ↦ ok (best_pitfall_output o os')
        ]
      ]
