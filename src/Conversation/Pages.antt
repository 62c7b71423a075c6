-- ===== src/Conversation/Pages.antt =====
-- What a page of a conversation is, and when there is none.
use agent_sdk_go.Prelude.{
  ℕ, ◌+◌, ◌-◌, ◌≤◌, ◌<◌, ◌^◌, ◌≡◌, ◌↔◌, refl, false, none, List, arith, length, IsNat64, lt64,
  sub64, ltb, if◌then◌else◌, true, inl, inr, Bool-cases, ltb→lt,
}
use agent_sdk_go.Agent.{Message}
use agent_sdk_go.Conversation.{
  ListMessagesOptions, page_limit, page_offset, page_start, page_end, page,
}

-- The Offset and the Limit that are asked for: a negative Offset is 0, a negative Limit is none.
abbrev pub asked_offset : ListMessagesOptions → ℕ
asked_offset lmo = if ltb lmo.offset (2 ^ 63) then lmo.offset else 0

abbrev pub asked_limit : ListMessagesOptions → ℕ → ℕ
asked_limit lmo n = if ltb lmo.limit (2 ^ 63) then lmo.limit else n

-- The options are 64-bit numbers.
abbrev pub Words : ListMessagesOptions → Type 0
Words lmo = (lmo.offset < 2 ^ 64) × (lmo.limit < 2 ^ 64)

module _ (lmo : ListMessagesOptions) (n : ℕ) (small : IsNat64 n) (words : Words lmo) where
  page_limit_lem : page_limit lmo n ≡ asked_limit lmo n
  unfolding page_limit
  page_limit_lem = ground arith

  page_offset_lem : page_offset lmo ≡ asked_offset lmo
  unfolding page_offset
  page_offset_lem = ground arith

  asked_small : (asked_offset lmo < 2 ^ 63) × (asked_limit lmo n < 2 ^ 63)
  asked_small = ground arith

  end_inside : (o : ℕ) → o ≤ n → (let end = sub64 n o in if lt64 n end then n else end) ≡ n - o
  end_inside o h = ground arith

  start_inside :
      (o l : ℕ)
      → o ≤ n
      → l < 2 ^ 63
      → (let start = sub64 (sub64 n o) l in if lt64 start 0 then 0 else start) ≡ (n - o) - l
  start_inside o l h hl = ground arith

  end_outside :
      (o : ℕ)
      → n < o
      → o < 2 ^ 63
      → (let end = sub64 n o in if lt64 n end then n else end) ≡ sub64 n o
  end_outside o h ho = ground arith

  start_outside :
      (o l : ℕ)
      → n < o
      → o + l < 2 ^ 63
      → (let start = sub64 (sub64 n o) l in if lt64 start 0 then 0 else start) ≡ 0
  start_outside o l h sum = ground arith

  inside_end : asked_offset lmo ≤ n → page_end lmo n ≡ n - asked_offset lmo
  unfolding page_end
  inside_end h = rw (page_offset_lem, page_end) (end_inside (asked_offset lmo) h)

  inside_start :
      asked_offset lmo ≤ n → page_start lmo n ≡ (n - asked_offset lmo) - asked_limit lmo n
  unfolding page_start
  inside_start h =
      rw (page_offset_lem, page_limit_lem, page_start)
        (start_inside (asked_offset lmo) (asked_limit lmo n) h asked_small.1)

  outside_end : n < asked_offset lmo → page_end lmo n ≡ sub64 n (asked_offset lmo)
  unfolding page_end
  outside_end h = rw (page_offset_lem, page_end) (end_outside (asked_offset lmo) h asked_small.0)

  outside_start :
      n < asked_offset lmo → asked_offset lmo + asked_limit lmo n < 2 ^ 63 → page_start lmo n ≡ 0
  unfolding page_start
  outside_start h sum =
      rw (page_offset_lem, page_limit_lem, page_start)
        (start_outside (asked_offset lmo) (asked_limit lmo n) h sum)

  has_room : asked_offset lmo ≤ n → lt64 (sub64 (page_end lmo n) (page_start lmo n)) 0 ≡ false
  has_room h =
      let fits : (o l : ℕ) → o ≤ n → lt64 (sub64 (n - o) ((n - o) - l)) 0 ≡ false =
        λ o l within. ground arith in
      rw (inside_end h, inside_start h) (fits (asked_offset lmo) (asked_limit lmo n) h)

  has_no_room :
      n < asked_offset lmo
      → asked_offset lmo + asked_limit lmo n < 2 ^ 63
      → lt64 (sub64 (page_end lmo n) (page_start lmo n)) 0 ≡ true
  has_no_room h sum =
      let below : (o : ℕ) → n < o → o < 2 ^ 63 → lt64 (sub64 (sub64 n o) 0) 0 ≡ true =
        λ o over ho. ground arith in
      rw (outside_end h, outside_start h sum) (below (asked_offset lmo) h asked_small.0)

-- With 64-bit options, where a negative Offset counts as 0 and a negative Limit as the number of
-- messages, and where Offset and Limit then sum to less than 2 ^ 63, ListMessages panics on a stored
-- conversation exactly when the Offset is greater than the number of its messages.
pub page_panics_iff :
    {Args : Type 0} (lmo : ListMessagesOptions) (msgs : List (Message Args))
    → Words lmo
    → asked_offset lmo + asked_limit lmo (length msgs) < 2 ^ 63
    → IsNat64 (length msgs)
    → (page lmo msgs ≡ none) ↔ (length msgs < asked_offset lmo)
unfolding page
page_panics_iff lmo msgs words sum hn = elim (Bool-cases (ltb (length msgs) (asked_offset lmo))) [
  | inl over ↦
      let h = ltb→lt (length msgs) (asked_offset lmo) over in
      let panics = has_no_room lmo (length msgs) hn words h sum in
      rw (panics, page) (λ e. h, λ h'. refl)
  | inr within ↦
      let h : asked_offset lmo ≤ length msgs = ground arith in
      let fits = has_room lmo (length msgs) hn words h in
      rw (fits, page) (λ e. cc, λ h'. absurd (omega (arith, h, h')))
]
