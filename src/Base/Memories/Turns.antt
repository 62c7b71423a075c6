-- ===== src/Base/Memories/Turns.antt =====
-- The messages that the extraction of memories sends: messagesForMemoryExtraction of
-- internal/runtime/base/memory.go.
use agent_sdk_go.Prelude.{
  true, false, not, ◌&&◌, List, [], ◌∷◌, ◌++◌, All, string_eq, ◌==◌, ◌⊎◌, inl, inr, ◌≡◌, refl, ap,
  Bool-cases, arith,
}
use agent_sdk_go.Agent.{Message}
use agent_sdk_go.Base.{Outside, Args}
use agent_sdk_go.Base.Memories.Extraction.{
  is_turn, is_assistant, spoken, last_role, extract_turn, messages_for_memory_extraction,
}

module _ (o : Outside) where
  open o use {trim}

  -- A message of the user or the assistant that is not blank.
  abbrev pub IsSpoken : Message (Args o) → Type 0
  IsSpoken m = (is_turn o m.role ≡ true) × ((trim m.content == "") ≡ false)

  spoken-All : (messages : List (Message (Args o))) → All IsSpoken (spoken o messages)
  unfolding spoken
  spoken-All [] = tt
  spoken-All (m ∷ messages) = elim (Bool-cases (is_turn o m.role && not (trim m.content == ""))) [
    | inl kept ↦ rw (kept, spoken) (ground arith, spoken-All messages)
    | inr left ↦ rw (left, spoken) (spoken-All messages)
  ]

  last_role-snoc :
      (ms : List (Message (Args o))) (m : Message (Args o)) → last_role o (ms ++ m ∷ []) ≡ m.role
  unfolding last_role
  last_role-snoc [] m = refl
  last_role-snoc (x ∷ []) m = refl
  last_role-snoc (x ∷ y ∷ ms) m = last_role-snoc (y ∷ ms) m

  -- The messages sent for extraction are those of the user and the assistant that are not blank, in
  -- their order, and at most one more of the user; the last of them is not the assistant's.
  pub messages_for_memory_extraction_lem :
      (messages : List (Message (Args o)))
      → let out = messages_for_memory_extraction o messages in
        All IsSpoken (spoken o messages)
        × (is_assistant o (last_role o out) ≡ false)
        × ((out ≡ spoken o messages) ⊎ (out ≡ spoken o messages ++ extract_turn o ∷ []))
  unfolding messages_for_memory_extraction
  messages_for_memory_extraction_lem messages =
      elim (Bool-cases (is_assistant o (last_role o (spoken o messages)))) [
        | inl ends ↦
            rw (ends, messages_for_memory_extraction)
              (
                spoken-All messages,
                ap (is_assistant o) (last_role-snoc (spoken o messages) (extract_turn o)),
                inr refl,
              )
        | inr other ↦
            rw (other, messages_for_memory_extraction) (spoken-All messages, other, inl refl)
      ]
