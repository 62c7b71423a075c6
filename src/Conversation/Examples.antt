-- ===== src/Conversation/Examples.antt =====
-- A store of two messages for each conversation.
use agent_sdk_go.Prelude.{ℕ, ◌<◌, ◌≡◌, ◌↔◌, none, List, [], ◌∷◌, String, string_eq, arith}
use agent_sdk_go.Agent.{Message, user}
use agent_sdk_go.Conversation.{ListMessagesOptions, page}
use agent_sdk_go.Conversation.Window.{Call, added}
use agent_sdk_go.Conversation.Pages.{page_panics_iff}

abbrev said : String → Message String
said text = record {
  role = user;
  content = text;
  tool_name = "";
  tool_call_id = "";
  tool_calls = [];
}

abbrev three : List (Message String)
three = said "a" ∷ said "b" ∷ said "c" ∷ []

abbrev three_calls : List (Call String)
three_calls = added "x" (said "a") ∷ added "x" (said "b") ∷ added "x" (said "c") ∷ []

abbrev skipping : ℕ → ListMessagesOptions
skipping offset = record { limit = 1; offset = offset; roles = user ∷ [] }

page_panics_iff_example : (page (skipping 4) three ≡ none) ↔ (3 < 4)
page_panics_iff_example =
    page_panics_iff (skipping 4) three (omega arith, omega arith) (omega arith) (omega arith)
