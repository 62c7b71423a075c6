-- ===== src/Conversation.antt =====
-- pkg/conversation/inmem/conversation.go: the in-memory store of conversations, which keeps the last
-- messages of each. Every method holds the store's lock. `int` values are 64-bit patterns; lengths
-- are taken to be below 2 ^ 63.
pub mod Window
pub mod Pages
mod Examples
use agent_sdk_go.Prelude.{
  ℕ, ◌-◌, Bool, true, false, not, ◌&&◌, Option, none, some, List, [], ◌∷◌, ◌++◌, String, string_eq,
  ◌==◌, if◌then◌else◌, length, drop, take, lt64, le64, sub64, ltb,
}
use agent_sdk_go.Prelude.GoMap
use agent_sdk_go.Prelude.GoMap.{GoMap}
use agent_sdk_go.Agent.{MessageRole, no_role, system, user, assistant, tool, reasoning, Message}

-- The text of a role, which the source compares.
abbrev pub role_text : MessageRole → String
role_text no_role = ""
role_text system = "system"
role_text user = "user"
role_text assistant = "assistant"
role_text tool = "tool"
role_text reasoning = "reasoning"

-- interfaces.ListMessagesOptions
pub record ListMessagesOptions : Type 0 where
  pub limit : ℕ
  pub offset : ℕ
  pub roles : List MessageRole

unfoldable pub role_in : MessageRole → List MessageRole → Bool
role_in role [] = false
role_in role (r ∷ rs) = if role_text role == role_text r then true else role_in role rs

-- The options that ListMessages starts from; `-1` is the pattern `2 ^ 64 - 1`.
abbrev pub default_options : ListMessagesOptions
default_options = record {
  limit = 18446744073709551615;
  offset = 18446744073709551615;
  roles = user ∷ assistant ∷ tool ∷ [];
}

unfoldable pub apply_options :
    ListMessagesOptions → List (ListMessagesOptions → ListMessagesOptions) → ListMessagesOptions
apply_options lmo [] = lmo
apply_options lmo (opt ∷ opts) = apply_options (opt lmo) opts

pub record InMemoryConversation (Args : Type 0) : Type 0 where
  pub max_size : ℕ
  pub messages : GoMap String (List (Message Args))

-- The sizes are those of the WithMaxSize options, in their order.
unfoldable pub configured_size : ℕ → List ℕ → ℕ
configured_size size [] = size
configured_size size (s ∷ ss) = configured_size s ss

-- The bounds of a page of `n` messages, as ListMessages computes them.
unfoldable pub page_limit : ListMessagesOptions → ℕ → ℕ
page_limit lmo n = if lt64 lmo.limit 0 then n else lmo.limit

unfoldable pub page_offset : ListMessagesOptions → ℕ
page_offset lmo = if lt64 lmo.offset 0 then 0 else lmo.offset

unfoldable pub page_start : ListMessagesOptions → ℕ → ℕ
page_start lmo n =
    let start = sub64 (sub64 n (page_offset lmo)) (page_limit lmo n) in
    if lt64 start 0 then 0 else start

unfoldable pub page_end : ListMessagesOptions → ℕ → ℕ
page_end lmo n = let end = sub64 n (page_offset lmo) in if lt64 n end then n else end

module _ {Args : Type 0} where
  unfoldable pub new_conversation : List ℕ → InMemoryConversation Args
  unfolding configured_size
  new_conversation sizes =
      let size = configured_size 100 sizes in
      record { max_size = if le64 size 0 then 100 else size; messages = [] }

  -- c.messages[id]
  abbrev pub stored : InMemoryConversation Args → String → List (Message Args)
  stored c id = elim (GoMap.lookup id c.messages) [ none ↦ [] | some msgs ↦ msgs ]

  -- The cut to the last messages.
  unfoldable pub trimmed : ℕ → List (Message Args) → List (Message Args)
  trimmed max_size msgs =
      if lt64 0 max_size && lt64 max_size (length msgs)
      then drop (length msgs - max_size) msgs
      else msgs

  unfoldable pub add_message :
      InMemoryConversation Args → String → Message Args → InMemoryConversation Args
  unfolding trimmed
  add_message c id msg =
      let msgs = trimmed c.max_size (stored c id ++ msg ∷ []) in
      if id == "" then c else record c { messages = GoMap.insert id msgs c.messages }

  unfoldable pub clear : InMemoryConversation Args → String → InMemoryConversation Args
  clear c id = if id == "" then c else record c { messages = GoMap.delete id c.messages }

  -- The messages whose role is asked for; no roles ask for all.
  unfoldable pub filter_roles : List MessageRole → List (Message Args) → List (Message Args)
  filter_roles roles [] = []
  filter_roles roles (msg ∷ msgs) =
      let rest = filter_roles roles msgs in
      if ltb 0 (length roles) && not (role_in msg.role roles) then rest else msg ∷ rest

  -- The page of a conversation. `none` is the panic of `make` on a negative capacity.
  unfoldable pub page : ListMessagesOptions → List (Message Args) → Option (List (Message Args))
  page lmo cp =
      let start = page_start lmo (length cp) in
      let end = page_end lmo (length cp) in
      if lt64 (sub64 end start) 0
      then none
      else some (filter_roles lmo.roles (take (end - start) (drop start cp)))

  unfoldable pub list_messages :
      InMemoryConversation Args
      → String
      → List (ListMessagesOptions → ListMessagesOptions)
      → Option (List (Message Args))
  unfolding page apply_options
  list_messages c id opts = if id == "" then some [] else elim (GoMap.lookup id c.messages) [
    | none ↦ some []
    | some msgs ↦ page (apply_options default_options opts) msgs
  ]
