-- ===== src/Base.antt =====
-- The execution core of internal/runtime/base/runtime.go, which the runtimes share: requests to the
-- model and its answers, the execution of tools, retrieval, and long-term memory.
pub mod Sample
pub mod Requests
pub mod Streaming
pub mod Generate
pub mod Memories
pub mod Retrieval
pub mod Tools
mod Examples
use agent_sdk_go.Prelude.{ℕ, Bool, Option, List, String, ◌⊎◌}
use agent_sdk_go.Prelude.GoMap.{GoMap}
use agent_sdk_go.CircuitBreaker.{ToolKind}
use agent_sdk_go.Budget.{LlmUsage}
use agent_sdk_go.Agent.{Message, ToolCall, GoError}
use agent_sdk_go.Hooks.{Payloads}

-- interfaces.Document without its metadata.
pub record Document (Float : Type 0) : Type 0 where
  pub content : String
  pub source : String
  pub score : Float

-- What is not under the repository: values of arguments, floats, JSON schemas, times, the three
-- regular expressions of sanitize.go as replacing functions, strings.ReplaceAll, strings.Contains
-- and strings.TrimSpace, the length of a text, the formats of fmt, uuid.New and time.Now, a type
-- assertion to a text or to documents, "%v", the first 32 digits of a SHA-256, strings.HasPrefix with
-- the text behind the prefix, fmt.Errorf with an error, and the memories in a JSON text.
pub record Outside : Type 1 where
  pub W : Type 0
  pub Value : Type 0
  pub Float : Type 0
  pub Schema : Type 0
  pub Time : Type 0
  pub replace_timestamps : String → String
  pub replace_session_ids : String → String
  pub replace_whitespace : String → String
  pub replace_all : String → String → String → String
  pub contains : String → String → Bool
  pub byte_len : String → ℕ
  pub trim : String → String
  pub sprintf : String → List String → String
  pub format_doc : ℕ → String → String → Float → String
  pub format_entry : ℕ → String → String → Float → String
  pub positive : Float → Bool
  pub uuid : W → String × W
  pub now : W → Time × W
  pub is_negative : Float → Bool
  pub above_one : Float → Bool
  pub default_dedup_min_score : Float
  pub plus : Time → ℕ → Time
  pub Ctx : Type 0
  pub context_string : String → Ctx → String
  pub ttl_decision : ℕ
  pub ttl_note : ℕ
  pub as_string : Value → Option String
  pub as_documents : Value → Option (List (Document Float))
  pub of_string : String → Value
  pub format_value : Value → String
  pub decimal : ℕ → String
  pub hash_prefix : String → String
  pub cut_prefix : String → String → Option String
  pub wrap : String → GoError → GoError
  pub parse_memories : String → List (String × String) ⊎ GoError

-- interfaces.MemoryRecord; the zero time is `none`.
pub record MemoryRecord (Time : Type 0) : Type 0 where
  pub text : String
  pub kind : String
  pub metadata : Option (GoMap String String)
  pub expires_at : Option Time

-- interfaces.ToolSpec
pub record ToolSpec (Schema : Type 0) : Type 0 where
  pub name : String
  pub description : String
  pub parameters : Schema

-- types.LLMReasoning
pub record LlmReasoning : Type 0 where
  pub enabled : Bool
  pub effort : String
  pub budget_tokens : ℕ

-- types.LLMSampling; `max_tokens` is a 64-bit pattern.
pub record LlmSampling (Float : Type 0) : Type 0 where
  pub temperature : Option Float
  pub max_tokens : ℕ
  pub top_p : Option Float
  pub top_k : Option ℕ
  pub reasoning : Option LlmReasoning

-- interfaces.ResponseFormat
pub record ResponseFormat (Schema : Type 0) : Type 0 where
  pub type_ : String
  pub name : String
  pub schema : Schema

module _ (o : Outside) where
  open o use {Value, Float, Schema, Time}

  abbrev pub Args : Type 0
  Args = GoMap String Value

  -- interfaces.LLMRequest
  pub record LlmRequest : Type 0 where
    pub system_message : String
    pub response_format : Option (ResponseFormat Schema)
    pub tools : List (ToolSpec Schema)
    pub messages : List (Message Args)
    pub temperature : Option Float
    pub max_tokens : ℕ
    pub top_p : Option Float
    pub top_k : Option ℕ
    pub reasoning : Option LlmReasoning

  -- interfaces.LLMResponse without its metadata; a nil call is `none`.
  pub record LlmResponse : Type 0 where
    pub content : String
    pub usage : Option LlmUsage
    pub tool_calls : List (Option (ToolCall Args))

  -- What the hooks of the runtime are about.
  abbrev pub payloads : Payloads
  payloads = record {
    W = o.W;
    LlmRequest = LlmRequest;
    LlmResponse = LlmResponse;
    Value = Value;
    Document = Document Float;
    MemoryKind = String;
    MemoryRecord = MemoryRecord Time;
    Float = Float;
  }
