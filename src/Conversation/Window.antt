-- ===== src/Conversation/Window.antt =====
-- What the store keeps of the messages that it was given.
use agent_sdk_go.Prelude.{
  ℕ, ◌-◌, List, [], ◌∷◌, ◌++◌, String, string_eq, ◌==◌, length, drop, if◌then◌else◌,
}
use agent_sdk_go.Prelude.GoMap
use agent_sdk_go.Agent.{Message}
use agent_sdk_go.Conversation.{InMemoryConversation, add_message, clear}

-- The last `m` entries.
abbrev pub last_of : {A : Type 0} → ℕ → List A → List A
last_of m xs = drop (length xs - m) xs

pub data Call (Args : Type 0) : Type 0 where
  added : (id : String) (msg : Message Args) → Call Args
  cleared : (id : String) → Call Args

module _ {Args : Type 0} where
  abbrev pub call : InMemoryConversation Args → Call Args → InMemoryConversation Args
  call c (added id msg) = add_message c id msg
  call c (cleared id) = clear c id

  abbrev pub run : InMemoryConversation Args → List (Call Args) → InMemoryConversation Args
  run c [] = c
  run c (k ∷ ks) = run (call c k) ks

  -- All that a conversation was given since it was last cleared.
  abbrev pub given : String → List (Message Args) → List (Call Args) → List (Message Args)
  given id before [] = before
  given id before (added j msg ∷ ks) = given id (if j == id then before ++ msg ∷ [] else before) ks
  given id before (cleared j ∷ ks) = given id (if j == id then [] else before) ks
