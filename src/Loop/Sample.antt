-- ===== src/Loop/Sample.antt =====
-- Surroundings for tests: the world counts the runs of tools; a tool is its name, `rm` is always
-- refused, every approval is granted, and money is counted in cents.
use agent_sdk_go.Prelude.{
  ℕ, zero, suc, ◌*◌, Bool, true, false, none, some, List, [], ◌∷◌, ◌++◌, String, string_eq, ◌==◌,
  ltb, nat_beq, ◌⊎◌, inl, inr, if◌then◌else◌,
}
use agent_sdk_go.CircuitBreaker
use agent_sdk_go.CircuitBreaker.{native}
use agent_sdk_go.Budget.{Dollars, BudgetConfig, wait_for_approval}
use agent_sdk_go.Retry.{ExecutionPolicy}
use agent_sdk_go.Agent.{AgentTelemetry, ToolCallRequest, LlmResult, GoError, approved, no_reason}
use agent_sdk_go.Loop.{Host, LocalRuntime, AgentLoopInput, answered, no_routes, agentic}

abbrev pub clock : CircuitBreaker.Host
clock = record {
  Args = String;
  empty_args = "{}";
  marshal = λ a. some a;
  sha256_hex = λ s. s;
  Time = ℕ;
  is_zero = λ t. nat_beq t 0;
  unix_nano = λ t. t;
  since = λ t n. t;
}

abbrev pub cents : Dollars
cents = record {
  Usd = ℕ;
  is_pos = λ x. ltb 0 x;
  rate = λ x. x;
  nano = λ x. x;
  usd = λ x. x;
  zero_usd = 0;
}

-- A call of a tool.
abbrev pub call_of : String → Bool → ToolCallRequest String
call_of name needs = record {
  tool_call_id = "id";
  tool_name = name;
  tool_display_name = name;
  tool_kind = native;
  args = none;
  needs_approval = needs;
  unknown = false;
}

-- What a model says in the rounds of a run: the last answer is repeated.
abbrev pub reply : List (LlmResult String) → ℕ → LlmResult String ⊎ GoError
reply [] i = inr (record { text = "down"; is_budget_exceeded = false })
reply (r ∷ []) i = inl r
reply (r ∷ r' ∷ rs) zero = inl r
reply (r ∷ r' ∷ rs) (suc i) = reply (r' ∷ rs) i

abbrev pub count_up : ℕ → List ℕ
count_up zero = []
count_up (suc n) = count_up n ++ n ∷ []

-- One call of `ls`, then an answer.
abbrev pub one_round : List (LlmResult String)
one_round =
    record { content = "look"; tool_calls = call_of "ls" false ∷ []; usage = none }
    ∷ record { content = "done"; tool_calls = []; usage = none }
    ∷ []

abbrev pub host : Host
host = record {
  W = ℕ;
  circuit = clock;
  dollars = cents;
  Coefficient = ℕ;
  scale = λ b c. b * c;
  ctx_err = λ w. none;
  wait = λ n w. (none, w);
  trim = λ s. s;
  sprintf = λ f xs. f;
  decimal = λ n. "2";
  status_text = λ s. "s";
  resolve_text = λ e. "missing";
  budget_text = λ e. "over";
  uuid = λ w. ("token", w);
  Tool = String;
  tool_name = λ t. t;
  authorizer = λ t.
      if t == "rm"
      then some (λ a w. (inl (record { allowed = false; reason = "no" }), w))
      else none;
  execute_tool = λ tools name args id run scope d w. (inl "done", suc w);
  query = λ a. "";
  Handler = Unit;
  call_handler = λ hd ev n w. w;
  store_pending = λ t w. w;
  delete_pending = λ t w. w;
  await_answer = λ t n w. (answered approved, w);
  publish = λ c ev w. w;
  on_budget_exceeded = λ r e a n x w. w;
  now = λ w. (1, w);
  Client = List (LlmResult String);
  execute_llm = λ c st i d w. (reply c i.iteration, w);
  schedule = λ n w. count_up n;
  list_messages = λ id n w. (inl [], w);
  add_message = λ id m d w. (none, w);
  recall = λ r sc q d w. (inl (record { context = ""; total = 1; failed = 0 }), w);
  retrieve = λ r q d w. (inl (record { context = ""; total = 1; failed = 0 }), w);
  store_memory = λ r sc ms d w. (none, w);
}

abbrev pub policy : ExecutionPolicy ℕ
policy = record {
  timeout = 60;
  max_attempts = 1;
  retry = record { initial_interval = 1; backoff_coefficient = 2; maximum_interval = 10 };
}

abbrev pub budget : BudgetConfig cents
budget = record {
  max_tokens = 100;
  max_cost_usd = 0;
  prompt_usd_per_1m = 0;
  completion_usd_per_1m = 0;
  on_exceeded = wait_for_approval;
  approval_extra_tokens = 0;
  approval_extra_cost_usd = 0;
  max_approvals = 1;
}

abbrev pub runtime : LocalRuntime host
runtime = record {
  agent_name = "a";
  max_iterations = 3;
  approval_timeout = 0;
  run_timeout = 0;
  budget = some budget;
  tool_execution_mode = "";
  primary = one_round;
  named_clients = [];
  error_control = none;
  circuit_config = none;
  has_conversation = false;
  conversation_size = 0;
  save_on_iteration = false;
  recall_enabled = false;
  run_end_store = false;
  retriever_mode = agentic;
  retriever_count = 0;
  policies = record {
    llm = policy;
    tool_auth = policy;
    tool_execute = policy;
    mcp_policy = policy;
    a2a_policy = policy;
    retriever = policy;
    memory = policy;
    conversation = policy;
    sub_agent = policy;
  };
}

abbrev pub input : AgentLoopInput host
input = record {
  user_prompt = "hi";
  conversation_id = "";
  streaming_enabled = false;
  tools = "ls" ∷ "rm" ∷ [];
  channel_name = "c";
  event_types = "*" ∷ [];
  approval_handler = some tt;
  sub_agent_routes = no_routes;
  sub_agent_depth = 0;
  max_sub_agent_depth = 2;
  memory_scope = record { tenant_id = ""; user_id = ""; agent_id = ""; tags = none };
  run_id = "r";
  enforce_budget = true;
  circuit_now = 0;
}

abbrev pub telemetry : AgentTelemetry
telemetry = record {
  run = record { total_llm_calls = 0; llm_retry_count = 0; finish_reason = no_reason };
  tools = record { total_calls = 0; failed_calls = 0; breakdown = []; failed_breakdown = [] };
  storage = record {
    total_retriever_searches = 0;
    failed_retriever_searches = 0;
    prefetch_searches = 0;
    agentic_searches = 0;
    total_memory_recalls = 0;
    failed_memory_recalls = 0;
    total_memory_stores = 0;
    failed_memory_stores = 0;
  };
}
