-- ===== src/Config/Names.antt =====
-- sanitizeName and validateAgentName of pkg/agent/config.go. A name is the list of its runes.
pub mod Accepted
use agent_sdk_go.Prelude.{
  ℕ, zero, suc, ◌+◌, Bool, true, false, ◌&&◌, ◌||◌, Option, none, some, List, [], ◌∷◌, ◌++◌,
  if◌then◌else◌, ltb, leb, nat_beq, length, take,
}

abbrev pub max_agent_name_len : ℕ
max_agent_name_len = 64

-- '-'
abbrev pub hyphen : ℕ
hyphen = 45

-- ' ', '\t', '\n', '\r'
abbrev pub is_blank : ℕ → Bool
is_blank r = nat_beq r 32 || nat_beq r 9 || nat_beq r 10 || nat_beq r 13

abbrev pub is_digit_or_mark : ℕ → Bool
is_digit_or_mark r = (leb 48 r && leb r 57) || nat_beq r hyphen || nat_beq r 95

-- A rune that a sanitized name keeps.
abbrev pub is_kept : ℕ → Bool
is_kept r = (leb 97 r && leb r 122) || is_digit_or_mark r

-- A rune that a valid name may have.
abbrev pub is_allowed : ℕ → Bool
is_allowed r = (leb 97 r && leb r 122) || (leb 65 r && leb r 90) || is_digit_or_mark r

-- The bytes of a rune.
abbrev pub rune_len : ℕ → ℕ
rune_len r = if ltb r 128 then 1 else if ltb r 2048 then 2 else if ltb r 65536 then 3 else 4

-- len(name)
unfoldable pub byte_len : List ℕ → ℕ
byte_len [] = 0
byte_len (r ∷ rs) = rune_len r + byte_len rs

-- One rune written to the builder.
abbrev pub written : List ℕ → ℕ → List ℕ
written out r = if is_blank r then out ++ hyphen ∷ [] else if is_kept r then out ++ r ∷ [] else out

-- The loop of sanitizeName; all that it writes is one byte long.
unfoldable pub strip : List ℕ → List ℕ → List ℕ
strip out [] = out
strip out (r ∷ rs) =
    let rest = strip (written out r) rs in
    if leb max_agent_name_len (length (written out r)) then written out r else rest

module _ (trim to_lower : List ℕ → List ℕ) where
  -- `trim` is strings.TrimSpace, `to_lower` is strings.ToLower.
  unfoldable pub sanitize_name : List ℕ → List ℕ
  sanitize_name name =
      let out = strip [] (to_lower (trim name)) in
      if nat_beq (length (trim name)) 0
      then []
      else if ltb max_agent_name_len (length out)
      then take max_agent_name_len out
      else out

pub data NameError : Type 0 where
  name_required name_too_long name_invalid : NameError

-- The loop of validateAgentName.
unfoldable pub check_runes : List ℕ → Option NameError
check_runes [] = none
check_runes (r ∷ rs) = let rest = check_runes rs in if is_allowed r then rest else some name_invalid

unfoldable pub validate_agent_name : List ℕ → Option NameError
unfolding check_runes
validate_agent_name name =
    if nat_beq (length name) 0
    then some name_required
    else if ltb max_agent_name_len (byte_len name)
    then some name_too_long
    else check_runes name
