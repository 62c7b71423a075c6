-- ===== src/Handles/Drive/Examples.antt =====
-- A stream of the run with two rounds.
use agent_sdk_go.Prelude.{true, false, none, some, [], inl}
use agent_sdk_go.Loop.{no_routes}
use agent_sdk_go.Loop.Sample.{host, runtime, input}
use agent_sdk_go.EventBus.{new_inmem, subscribe}
use agent_sdk_go.Handles.{new_handle}
use agent_sdk_go.Handles.Drive.{RunRequest, Driver, Driven}

abbrev driver : Driver host
driver = record {
  runtime = runtime;
  depth = 2;
  approval_handler = none;
  model = "model";
  resolve_memory_scope =
      λ s. (inl (record { tenant_id = ""; user_id = "u"; agent_id = ""; tags = none }), s);
  unset_time = 0;
  is_cancelled = λ e. false;
  bus_of = λ s. (subscribe new_inmem "agent-event-run").1;
  put_bus = λ bus s. s;
  encode = λ ev. some "event";
  reads = λ ch. 0;
}

abbrev request : RunRequest host
request = record {
  user_prompt = input.user_prompt;
  conversation_id = "";
  enable_llm_stream = false;
  event_types = [];
  sub_agent_routes = no_routes;
  max_sub_agent_depth = 2;
  tools = input.tools;
}

abbrev idle : Driven host
idle = record {
  handle = new_handle true true;
  state = record { w = 0; tracker = none; breaker = none };
  published = [];
}
