-- ===== src/Stream.antt =====
-- The messages of a Redis stream, as the Redis client returns them to both programs.
use nice_agent.Prelude.{String}
use nice_agent.Protocol.Json.{Json}

-- A Go `any`: nil, a string, bytes (as the text that they are), or something else.
pub data Value : Type 0 where
  nil_value : Value
  text : String → Value
  bytes : String → Value
  other : Json → Value
