-- ===== src/Embedder/Openai.antt =====
-- The batches of the OpenAI-compatible provider, internal/embedder/batch.go. The HTTP client and the
-- service behind it are a parameter: a request gives a status and a body, or fails, and what the JSON
-- decoder reads of a body are two functions. Waits are in nanoseconds; contexts are left out.
pub mod Retried
pub mod Placed
use vatbrain.Prelude.{
  ℕ, zero, suc, ◌+◌, ◌*◌, ◌-◌, ◌%◌, ◌^◌, Bool, true, false, ◌||◌, not, String, string_eq, List, [],
  ◌∷◌, ◌++◌, Option, none, some, map, length, get_or, set, replicate, ltb, leb, nat_eq, ◌==◌,
  if◌then◌else◌,
}
use vatbrain.Prelude.Int.{ℤ, pos, negsuc, positive, pos_part}
use vatbrain.Prelude.Result.{Result, Error, ok, err, embed_failed, decode_failed, invalid_argument}
use vatbrain.Prelude.Text.{Text}
use vatbrain.Embedder.Pool.{EmbedChunk, chunks_from, slice}

pub record EmbedData (W : Type 0) : Type 0 where
  pub embedding : List W
  pub index : ℤ

-- `error.code` of a body: a string, a number cut to an integer, or neither
pub data ErrorCode : Type 0 where
  text : String → ErrorCode
  number : ℤ → ErrorCode
  neither : ErrorCode

pub record EmbeddingService (W S B : Type 0) : Type 0 where
  pub post : List Text → S → Option (ℕ × B) × S
  pub decode : B → Option (List (EmbedData W))
  pub error_code : B → Option ErrorCode

-- `isRateLimitResponse`
is_rate_code : Option ErrorCode → Bool
is_rate_code none = false
is_rate_code (some (text s)) = s == "1302" || s == "1305"
is_rate_code (some (number (pos n))) = n == 1302 || n == 1305
is_rate_code (some (number (negsuc n))) = false
is_rate_code (some neither) = false

unfoldable pub is_rate_limit_response : ℕ → Option ErrorCode → Bool
unfolding is_rate_code
is_rate_limit_response status code = status == 429 || is_rate_code code

-- the input position of an item, where it is one that is not taken
unfoldable pub free_index : ℤ → List Bool → Option ℕ
free_index (pos i) seen = if leb (length seen) i || get_or seen i false then none else some i
free_index (negsuc i) seen = none

positions : ℕ → ℕ → List ℕ
positions i zero = []
positions i (suc n) = i ∷ positions (suc i) n

module _ {W : Type 0} where
  -- The loop over the items: `byIndex`, or `none` where the indices are of no use.
  unfoldable pub place : ℕ → List (EmbedData W) → List Bool → List ℕ → Option (List ℕ)
  unfolding free_index
  place i [] seen by_index = some by_index
  place i (e ∷ es) seen by_index = elim (free_index e.index seen) [
    | none ↦ none
    | some j ↦ place (suc i) es (set seen j true) (set by_index j i)
  ]

  picked : List (EmbedData W) → List ℕ → List (List W)
  picked es by_index = map (λ i. get_or (map (λ (e : EmbedData W). e.embedding) es) i []) by_index

  in_order : List (EmbedData W) → ℕ → Option (List ℕ) → List (List W)
  unfolding picked positions
  in_order es n none = picked es (positions 0 n)
  in_order es n (some by_index) = picked es by_index

  -- `reorderBatchVectors`
  unfoldable pub reorder_batch_vectors : List (EmbedData W) → ℕ → List (List W)
  unfolding in_order place
  reorder_batch_vectors es n =
      let by_index = place 0 es (replicate n false) (replicate n 0) in
      in_order es n (if length es == n then by_index else none)

-- `backoff << (attempt - 1)` as an `int64`, at most the cap of eight seconds
unfoldable pub signed64 : ℕ → ℤ
signed64 n = let m = n % 2 ^ 64 in if ltb m (2 ^ 63) then pos m else negsuc (2 ^ 64 - m - 1)

abbrev pub embed_retry_backoff_cap : ℕ
embed_retry_backoff_cap = 8000000000

abbrev pub default_embed_retry_backoff : ℕ
default_embed_retry_backoff = 250000000

abbrev pub default_embed_max_retries : ℕ
default_embed_max_retries = 5

capped : ℤ → ℤ
capped (pos n) = pos (if ltb embed_retry_backoff_cap n then embed_retry_backoff_cap else n)
capped (negsuc n) = negsuc n

unfoldable pub wait_before : (backoff attempt : ℕ) → ℤ
unfolding capped signed64
wait_before backoff attempt = capped (signed64 (backoff * 2 ^ (attempt - 1)))

-- what the attempts at a chunk give, the waits before them, and the service after them
pub record Attempts (W S : Type 0) : Type 0 where
  pub result : Result (List (List W))
  pub waits : List ℤ
  pub service : S

-- A success ends the loop, and so does an error that is not to be tried again.
abbrev pub after_attempt :
    {W S : Type 0}
    → (Result (List (List W)) × Bool) × S
    → List ℤ
    → (Error → S → Attempts W S)
    → Attempts W S
after_attempt ((ok vecs, _), s) waits again = record {
  result = ok vecs;
  waits = waits;
  service = s;
}
after_attempt ((err e, true), s) waits again = again e s
after_attempt ((err e, false), s) waits again = record {
  result = err e;
  waits = waits;
  service = s;
}

pub record OpenAiProvider : Type 0 where
  pub max_retries : ℤ
  pub retry_backoff : ℤ

module _ {W S B : Type 0} (service : EmbeddingService W S B) where
  -- what follows a decoded answer
  checked : ℕ → Option (List (EmbedData W)) → Result (List (List W))
  checked n none = err decode_failed
  checked n (some es) =
      if length es == n then ok (reorder_batch_vectors es n) else err invalid_argument

  answered : ℕ → Option (ℕ × B) → Result (List (List W)) × Bool
  unfolding checked is_rate_limit_response
  answered n none = (err embed_failed, false)
  answered n (some (status, body)) =
      if status == 200
      then (checked n (service.decode body), false)
      else (err embed_failed, is_rate_limit_response status (service.error_code body))

  -- `embedChunkOnce`: the vectors or an error, and whether to try again
  unfoldable pub embed_chunk_once : List Text → S → (Result (List (List W)) × Bool) × S
  unfolding answered
  embed_chunk_once chunk s =
      let (reply, s') = service.post chunk s in (answered (length chunk) reply, s')

  -- the loop over the attempts, with those that are left and the last error
  unfoldable pub attempts :
      (backoff : ℕ) → List Text → (left attempt : ℕ) → Error → List ℤ → S → Attempts W S
  unfolding wait_before
  attempts backoff chunk zero n last waits s = record {
    result = err last;
    waits = waits;
    service = s;
  }
  attempts backoff chunk (suc left) n last waits s =
      let waits' = if ltb 0 n then waits ++ wait_before backoff n ∷ [] else waits in
      after_attempt (embed_chunk_once chunk s) waits'
        (λ e s'. attempts backoff chunk left (suc n) e waits' s')

  -- `embedChunkWithRetry`
  unfoldable pub embed_chunk_with_retry : (max_retries backoff : ℕ) → List Text → S → Attempts W S
  unfolding attempts
  embed_chunk_with_retry max backoff chunk s = attempts backoff chunk (suc max) 0 embed_failed [] s

  -- the loop over the chunks, with the vectors so far
  unfoldable pub embed_chunks :
      (max_retries backoff : ℕ)
      → List Text
      → List EmbedChunk
      → List (List W)
      → S
      → Result (List (List W)) × S
  unfolding slice
  embed_chunks max backoff texts [] out s = (ok out, s)
  embed_chunks max backoff texts (c ∷ cs) out s =
      let a = embed_chunk_with_retry max backoff (slice texts c.start c.end) s in
      elim a.result [
        | ok vecs ↦ embed_chunks max backoff texts cs (out ++ vecs) a.service
        | err e ↦ (err e, a.service)
      ]

  -- `OpenAIProvider.EmbedBatch`
  unfoldable pub openai_embed_batch : OpenAiProvider → List Text → S → Result (List (List W)) × S
  unfolding embed_chunks chunks_from
  openai_embed_batch o texts s =
      let max =
        if positive o.max_retries then pos_part o.max_retries else default_embed_max_retries in
      let backoff =
        if positive o.retry_backoff
        then pos_part o.retry_backoff
        else default_embed_retry_backoff in
      embed_chunks max backoff texts (chunks_from (length texts) 0 (length texts) 64) [] s
