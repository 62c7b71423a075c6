-- ===== src/Memory/Examples.antt =====
-- The theorems on the memory's configuration at concrete values.
use agent_sdk_go.Prelude.{string_eq}
