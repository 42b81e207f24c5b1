-- ===== src/Core/Extractor/Draft/Traced.antt =====
-- What a pitfall of internal/core/pitfall_extractor.go says of the memories that it is made of.
use vatbrain.Prelude.{◌≡◌, refl, String, List, Option, none, some, map, length, nat_eq, string_eq}
use vatbrain.Prelude.Result.{Result, ok, err}
use vatbrain.Prelude.Text.{Text}
use vatbrain.Float.{Float64}
use vatbrain.Models.Common.{Uuid, Time}
use vatbrain.Models.Pitfall.{PitfallMemory}
use vatbrain.Store.{EpisodicScanItem}
use vatbrain.Core.Extractor.Parse.{PitfallLlmOutput, Decoder, parse_pitfall_response}
use vatbrain.Core.Extractor.Draft.{LlmClient, of_output, of_response, extract_from_sub_cluster}

module _ {W : Type 0} ⦃d : Float64 W⦄ where
  -- What a pitfall says of the memories that it is made of, if one is made.
  abbrev pub IsDraftOf : String → List (EpisodicScanItem W) → PitfallMemory W → Type 0
  IsDraftOf entity eps p =
      (p.entity_id ≡ entity)
      × (p.occurrence_count ≡ length eps)
      × (p.source_episodic_ids ≡ map (λ (ep : EpisodicScanItem W). ep.id) eps)

  abbrev pub OnOk : (PitfallMemory W → Type 0) → Result (PitfallMemory W) → Type 0
  OnOk P (ok p) = P p
  OnOk P (err e) = Unit

  of_output-IsDraftOf :
      (id : Uuid) (now : Time) (entity : String) (eps : List (EpisodicScanItem W))
      (r : Result (PitfallLlmOutput W))
      → OnOk (IsDraftOf entity eps) (of_output id now entity eps r)
  unfolding of_output
  of_output-IsDraftOf id now entity eps (err e) = tt
  of_output-IsDraftOf id now entity eps (ok o) = (refl, refl, refl)

  of_response-IsDraftOf :
      (decoder : Decoder W) (id : Uuid) (now : Time) (entity : String)
      (eps : List (EpisodicScanItem W)) (r : Option Text)
      → OnOk (IsDraftOf entity eps) (of_response decoder id now entity eps r)
  unfolding of_response
  of_response-IsDraftOf decoder id now entity eps none = tt
  of_response-IsDraftOf decoder id now entity eps (some response) =
      of_output-IsDraftOf id now entity eps (parse_pitfall_response decoder response)

  pub extract_from_sub_cluster-IsDraftOf :
      (decoder : Decoder W) (llm : Option LlmClient) (id : Uuid) (now : Time) (entity : String)
      (eps : List (EpisodicScanItem W))
      → OnOk (IsDraftOf entity eps) (extract_from_sub_cluster decoder llm id now entity eps)
  unfolding extract_from_sub_cluster
  extract_from_sub_cluster-IsDraftOf decoder none id now entity eps = (refl, refl, refl)
  extract_from_sub_cluster-IsDraftOf decoder (some llm) id now entity eps =
      of_response-IsDraftOf decoder id now entity eps _
