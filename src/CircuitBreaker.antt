-- ===== src/CircuitBreaker.antt =====
-- internal/runtime/base/circuit_breaker.go: the per-run tracker of failing tools. A nil receiver is
-- `none`; a method that writes returns the tracker after it. `int` and `int64` are 64-bit patterns.
mod Alternation
pub mod Window
pub mod Streaks
pub mod Trips
pub mod Isolation
mod Examples
use agent_sdk_go.Prelude.{
  ℕ, ◌-◌, ◌%◌, Bool, true, false, not, ◌&&◌, ◌||◌, Option, none, some, List, [], ◌∷◌, ◌++◌, String,
  string_eq, ◌==◌, if◌then◌else◌, length, drop, get_elem?, lt64, le64, add64, nat_beq, ltb, suc,
}
use agent_sdk_go.Prelude.GoMap
use agent_sdk_go.Prelude.GoMap.{GoMap}

-- internal/types/tool.go; `no_kind` is the empty text.
pub data ToolKind : Type 0 where
  no_kind native mcp a2a sub_agent retriever memory : ToolKind

-- CountsTowardToolTelemetry
unfoldable pub counts_toward_tool_telemetry : ToolKind → Bool
counts_toward_tool_telemetry sub_agent = false
counts_toward_tool_telemetry a2a = false
counts_toward_tool_telemetry retriever = false
counts_toward_tool_telemetry _ = true

-- What the tracker uses of the packages `time`, `encoding/json` and `crypto/sha256`: JSON text of
-- arguments (`none` is an error), its digest in hex, the zero time, Unix nanoseconds, and
-- `now.Sub(time.Unix(0, n))`.
pub record Host : Type 1 where
  pub Args : Type 0
  pub empty_args : Args
  pub marshal : Args → Option String
  pub sha256_hex : String → String
  pub Time : Type 0
  pub is_zero : Time → Bool
  pub unix_nano : Time → ℕ
  pub since : Time → ℕ → ℕ

-- types.CircuitBreakerConfig
pub record CircuitBreakerConfig : Type 0 where
  pub max_consecutive_same_args : ℕ
  pub pattern_window_size : ℕ
  pub reset_after : ℕ

pub record CircuitBreakerToolState : Type 0 where
  pub last_hash : String
  pub consecutive : ℕ
  pub window : List String
  pub tripped : Bool
  pub tripped_at_unix_nano : ℕ

-- What Go's map returns for a missing key.
abbrev pub zero_tool_state : CircuitBreakerToolState
zero_tool_state = record {
  last_hash = "";
  consecutive = 0;
  window = [];
  tripped = false;
  tripped_at_unix_nano = 0;
}

-- The persisted state; `tools` is `none` for a nil map.
pub record CircuitBreakerState : Type 0 where
  pub tools : Option (GoMap String CircuitBreakerToolState)

pub record CircuitBreaker : Type 0 where
  pub cfg : CircuitBreakerConfig
  pub tools : GoMap String CircuitBreakerToolState

-- types.ErrorControlConfig, as far as the tracker reads it.
abbrev pub window_on : CircuitBreakerConfig → Bool
window_on cfg = le64 4 cfg.pattern_window_size

abbrev pub same_args_on : CircuitBreakerConfig → Bool
same_args_on cfg = lt64 0 cfg.max_consecutive_same_args

-- `none` stands for a nil ErrorControlConfig or a nil CircuitBreaker field of it.
unfoldable pub new_circuit_breaker : Option CircuitBreakerConfig → Option CircuitBreaker
new_circuit_breaker none = none
new_circuit_breaker (some cb) =
    if not (same_args_on cb) && not (window_on cb)
    then none
    else some (record { cfg = cb; tools = [] })

-- The copy loop of State and Restore.
unfoldable pub copy_tools :
    GoMap String CircuitBreakerToolState → GoMap String CircuitBreakerToolState
copy_tools [] = []
copy_tools ((k, v) ∷ m) = GoMap.insert k v (copy_tools m)

unfoldable pub state : Option CircuitBreaker → CircuitBreakerState
state none = record { tools = none }
state (some c) = record { tools = some (copy_tools c.tools) }

restored : CircuitBreaker → Option (GoMap String CircuitBreakerToolState) → CircuitBreaker
restored c none = record c { tools = [] }
restored c (some m) = record c { tools = copy_tools m }

unfoldable pub restore : Option CircuitBreaker → CircuitBreakerState → Option CircuitBreaker
unfolding restored
restore none s = none
restore (some c) s = some (restored c s.tools)

unfoldable pub new_circuit_breaker_from_state :
    Option CircuitBreakerConfig → CircuitBreakerState → Option CircuitBreaker
new_circuit_breaker_from_state cfg s = elim (new_circuit_breaker cfg) [
  | none ↦ none
  | some c ↦ restore (some c) s
]

unfoldable pub enabled : CircuitBreaker → Bool
enabled c = same_args_on c.cfg || window_on c.cfg

unfoldable pub counts_toward_circuit_breaker : Bool → ToolKind → Bool
counts_toward_circuit_breaker unknown kind = not unknown && counts_toward_tool_telemetry kind

-- c.state.Tools[name]
abbrev pub tool_state : CircuitBreaker → String → CircuitBreakerToolState
tool_state c name = elim (GoMap.lookup name c.tools) [ none ↦ zero_tool_state | some st ↦ st ]

-- The loop of isAlternating: `even` says whether the index of the next entry is.
unfoldable pub alternates : String → String → Bool → List String → Bool
alternates a b even [] = true
alternates a b even (h ∷ hs) = (h == (if even then a else b)) && alternates a b (not even) hs

unfoldable pub is_alternating : List String → Bool
is_alternating (a ∷ b ∷ rest) =
    let window = a ∷ b ∷ rest in
    if ltb (length window) 4 || not (nat_beq (length window % 2) 0)
    then false
    else if (a == "") || (b == "") || (a == b)
    then false
    else alternates a b true window
is_alternating window = false

unfoldable pub should_trip : CircuitBreakerConfig → CircuitBreakerToolState → Bool
should_trip cfg st =
    if same_args_on cfg && le64 cfg.max_consecutive_same_args st.consecutive
    then true
    else (window_on cfg && le64 cfg.pattern_window_size (length st.window))
      && is_alternating st.window

-- The window with a hash appended, cut to its size.
unfoldable pub slide : ℕ → List String → String → List String
slide size window h =
    let w = window ++ h ∷ [] in if lt64 size (length w) then drop (length w - size) w else w

unfoldable pub count_hash : String → CircuitBreakerToolState → CircuitBreakerToolState
count_hash h st =
    if not (h == "") && (h == st.last_hash)
    then record st { consecutive = add64 st.consecutive 1 }
    else record st { last_hash = h; consecutive = 1 }

unfoldable pub push_hash :
    CircuitBreakerConfig → String → CircuitBreakerToolState → CircuitBreakerToolState
unfolding slide
push_hash cfg h st =
    if not (h == "") && window_on cfg
    then record st { window = slide cfg.pattern_window_size st.window h }
    else st

-- The body of RecordFailure for a tool that has not tripped.
unfoldable pub failed :
    CircuitBreakerConfig → String → ℕ → CircuitBreakerToolState → CircuitBreakerToolState
unfolding count_hash push_hash
failed cfg h nano st =
    let st' = push_hash cfg h (count_hash h st) in
    if should_trip cfg st' then record st' { tripped = true; tripped_at_unix_nano = nano } else st'

unfoldable pub record_success : Option CircuitBreaker → String → Option CircuitBreaker
record_success none name = none
record_success (some c) name =
    let st = tool_state c name in
    let cleared = record st { last_hash = ""; consecutive = 0; window = [] } in
    if not (enabled c)
    then some c
    else if st.tripped
    then some c
    else some (record c { tools = GoMap.insert name cleared c.tools })

module _ (host : Host) where
  open host use {Args, empty_args, marshal, sha256_hex, Time, is_zero, unix_nano, since}

  -- A nil map is hashed as the empty one.
  unfoldable pub hash_tool_args : Option Args → String
  hash_tool_args none = elim (marshal empty_args) [ none ↦ "" | some b ↦ sha256_hex b ]
  hash_tool_args (some args) = elim (marshal args) [ none ↦ "" | some b ↦ sha256_hex b ]

  -- Whether ResetAfter has passed since the trip.
  unfoldable pub reset_due : CircuitBreakerConfig → CircuitBreakerToolState → Time → Bool
  reset_due cfg st now =
      (lt64 0 cfg.reset_after && not (is_zero now) && lt64 0 st.tripped_at_unix_nano)
      && le64 cfg.reset_after (since now st.tripped_at_unix_nano)

  unfoldable pub is_tripped : Option CircuitBreaker → String → Time → Option CircuitBreaker × Bool
  is_tripped none name now = (none, false)
  is_tripped (some c) name now =
      let st = tool_state c name in
      if not (enabled c)
      then (some c, false)
      else if not st.tripped
      then (some c, false)
      else if reset_due c.cfg st now
      then (some (record c { tools = GoMap.delete name c.tools }), false)
      else (some c, true)

  unfoldable pub record_failure :
      Option CircuitBreaker → String → Option Args → Time → Option CircuitBreaker × Bool
  unfolding failed
  record_failure none name args now = (none, false)
  record_failure (some c) name args now =
      let st = tool_state c name in
      let st' = failed c.cfg (hash_tool_args args) (unix_nano now) st in
      if not (enabled c)
      then (some c, false)
      else if st.tripped
      then (some (record c { tools = GoMap.insert name st c.tools }), true)
      else (some (record c { tools = GoMap.insert name st' c.tools }), st'.tripped)

  unfoldable pub apply_tool_circuit_result :
      Option CircuitBreaker
      → Bool
      → ToolKind
      → String
      → Option Args
      → Bool
      → Time
      → Option CircuitBreaker
  apply_tool_circuit_result cb unknown kind name args has_failed now =
      if not (counts_toward_circuit_breaker unknown kind)
      then cb
      else if has_failed
      then (record_failure cb name args now).0
      else record_success cb name
