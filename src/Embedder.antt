-- ===== src/Embedder.antt =====
-- internal/embedder: texts become vectors. An embedder is a function that may fail. A `float32` is
-- modelled as the numbers of Float are, without the rounding of a conversion.
pub mod Keyword
pub mod Dual
pub mod Pool
pub mod Openai
pub mod Expand
