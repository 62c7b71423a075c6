-- ===== src/Base/Generate/Closed.antt =====
-- Every call of the model, streaming or  leaves its events well bracketed.
use agent_sdk_go.Prelude.{
  Bool, false, some, [], String, inl, inr, ◌≡◌, refl, sym, subst, if_keeps, ◌∙◌, Option-cases,
  ⊎-cases, arith,
}
use agent_sdk_go.Loop.{LlmInput}
use agent_sdk_go.Base.{Outside, Args, LlmRequest, LlmResponse}
use agent_sdk_go.Base.Streaming.{
  LlmStream, LlmClient, LlmRuntime, Emitted, Flags, finalize_assistant_text, open_text_msg,
  close_text_msg, flush_reasoning, drain, all_closed, run_before_llm_request,
  run_after_llm_response, to_result, request,
}
use agent_sdk_go.Base.Generate.{
  Answer, execute_llm, finish, finish_whole, fall_back, read_stream, stream_answer,
  execute_llm_stream,
}
use agent_sdk_go.Base.Generate.Brackets.{
  read_all, at_rest, Bracketed, flags, Led, by_flags, flush_reasoning-Led, finalize-Led,
  drain-Follows,
}

module _ (o : Outside) (rt : LlmRuntime o) (client : LlmClient o)
    (input : LlmInput (Args o) rt.Tool) where
  before-events :
      (req : LlmRequest o) (s : Emitted o.W)
      → (run_before_llm_request o rt input req s).1.events ≡ s.events
  unfolding run_before_llm_request
  before-events req s = ground arith

  after-events :
      (resp : LlmResponse o) (s : Emitted o.W)
      → (run_after_llm_response o rt input resp s).1.events ≡ s.events
  unfolding run_after_llm_response
  after-events resp s = ground arith

  abbrev IsBracketed : Answer o rt client input → Type 0
  IsBracketed a = Bracketed input.message_id a

  finish-Bracketed :
      (resp : LlmResponse o) (text : Bool) (j : String) (s : Emitted o.W)
      → Led input.message_id (at_rest text) s
      → IsBracketed (finish o rt client input resp (flags text false j) s)
  unfolding finish Bracketed
  finish-Bracketed resp text j s h =
      let (hooked, s') = run_after_llm_response o rt input resp s in
      let h' : Led input.message_id (at_rest text) s' =
        subst (λ es. read_all input.message_id (at_rest false) es ≡ some (at_rest text))
          (sym (after-events resp s)) h in
      elim (⊎-cases hooked) [
        | inl (resp', e) ↦
            rw (e, finish)
              (finalize-Led input.message_id text j (to_result o rt input resp').content s' h')
        | inr (err, e) ↦ rw (e, finish) (text, h')
      ]

  read_stream-Bracketed :
      (stream : LlmStream o) (s : Emitted o.W)
      → Led input.message_id (at_rest false) s
      → IsBracketed (read_stream o rt client input stream s)
  unfolding read_stream flush_reasoning Bracketed
  read_stream-Bracketed stream s h =
      let (f, s') = drain o input.message_id stream.chunks all_closed s in
      let flushed : Led input.message_id (at_rest f.text_open) (flush_reasoning f s').1 =
        by_flags input.message_id
          (λ (x : Flags × Emitted o.W). Led input.message_id (at_rest x.0.text_open) x.1)
          flush_reasoning
          (λ text phase j s h. flush_reasoning-Led input.message_id text phase j s h) f s'
          (drain-Follows o input.message_id stream.chunks all_closed s (refl, h)) in
      elim (Option-cases stream.err) [
        | inr (e, is_err) ↦ rw (is_err, read_stream) (f.text_open, flushed)
        | inl fine ↦ elim (Option-cases stream.result) [
          | inl nil ↦ rw (fine, read_stream, nil) (f.text_open, flushed)
          | inr (resp, there) ↦
              rw (fine, read_stream, there)
                (finish-Bracketed resp f.text_open f.reasoning_id (flush_reasoning f s').1 flushed)
        ]
      ]

  generated : LlmRequest o → Emitted o.W → Emitted o.W
  generated req s = record s { world = (client.generate req s.world).1 }

  fall_back-Bracketed :
      (req : LlmRequest o) (s : Emitted o.W)
      → Led input.message_id (at_rest false) s
      → IsBracketed (fall_back o rt client input req s)
  unfolding fall_back generated Bracketed
  fall_back-Bracketed req s h = elim (⊎-cases (client.generate req s.world).0) [
    | inr (err, e) ↦ rw (e, fall_back) (false, h)
    | inl (resp, e) ↦ rw (e, fall_back) (finish-Bracketed resp false "" (generated req s) h)
  ]

  stream_answer-Bracketed :
      (req : LlmRequest o) (s : Emitted o.W)
      → Led input.message_id (at_rest false) s
      → IsBracketed (stream_answer o rt client input req s)
  unfolding stream_answer Bracketed
  stream_answer-Bracketed req s h =
      let s' : Emitted o.W = record s { world = (client.generate_stream req s.world).1 } in
      elim (⊎-cases (client.generate_stream req s.world).0) [
        | inr (err, e) ↦ rw (e, stream_answer) (false, h)
        | inl (stream, e) ↦ rw (e, stream_answer) (read_stream-Bracketed stream s' h)
      ]

  prepared-Led :
      (s : Emitted o.W)
      → s.events ≡ []
      → Led input.message_id
          (at_rest false)
          (run_before_llm_request o rt input (request o rt input) s).1
  unfolding read_all
  prepared-Led s new =
      let e = before-events (request o rt input) s ∙ new in
      subst (λ es. read_all input.message_id (at_rest false) es ≡ some (at_rest false)) (sym e) refl

  execute_llm_stream-Bracketed :
      (s : Emitted o.W) → s.events ≡ [] → IsBracketed (execute_llm_stream o rt client input s)
  unfolding execute_llm_stream Bracketed
  execute_llm_stream-Bracketed s new =
      let (r, s') = run_before_llm_request o rt input (request o rt input) s in
      let h : Led input.message_id (at_rest false) s' = prepared-Led s new in
      elim (⊎-cases r) [
        | inr (err, e) ↦ rw (e, execute_llm_stream) (false, h)
        | inl (req, e) ↦
            rw (e, execute_llm_stream)
              (if_keeps IsBracketed client.is_stream_supported (stream_answer-Bracketed req s' h)
                (fall_back-Bracketed req s' h))
      ]

  hooked-Bracketed :
      (resp : LlmResponse o) (s : Emitted o.W)
      → Led input.message_id (at_rest false) s
      → IsBracketed (finish_whole o rt client input resp s)
  unfolding finish_whole finalize_assistant_text open_text_msg close_text_msg Bracketed
  hooked-Bracketed resp s h =
      let (hooked, s') = run_after_llm_response o rt input resp s in
      let h' : Led input.message_id (at_rest false) s' =
        subst (λ es. read_all input.message_id (at_rest false) es ≡ some (at_rest false))
          (sym (after-events resp s)) h in
      elim (⊎-cases hooked) [
        | inl (resp', e) ↦
            rw (e, finish_whole)
              (finalize-Led input.message_id false "" (to_result o rt input resp').content s' h')
        | inr (err, e) ↦ rw (e, finish_whole) (false, h')
      ]

  execute_llm-Bracketed :
      (s : Emitted o.W) → s.events ≡ [] → IsBracketed (execute_llm o rt client input s)
  unfolding execute_llm Bracketed
  execute_llm-Bracketed s new =
      let (r, s') = run_before_llm_request o rt input (request o rt input) s in
      let h : Led input.message_id (at_rest false) s' = prepared-Led s new in
      elim (⊎-cases r) [
        | inr (err, e) ↦ rw (e, execute_llm) (false, h)
        | inl (req, e) ↦ elim (⊎-cases (client.generate req s'.world).0) [
          | inr (err, e') ↦ rw (e, execute_llm, e') (false, h)
          | inl (resp, e') ↦
              rw (e, execute_llm, e')
                (hooked-Bracketed resp (record s' { world = (client.generate req s'.world).1 }) h)
        ]
      ]

  -- The events of a call of the model, streaming or not, are a sequence that a reader accepts: starts
  -- and ends match by id, texts stand in an open message of the assistant and outside reasoning, and
  -- reasoning texts in an open reasoning message. A call that gives a result leaves nothing open, one
  -- that fails at most the message of the assistant; the events start with the call.
  pub calls-Bracketed :
      (s : Emitted o.W)
      → s.events ≡ []
      → Bracketed input.message_id (execute_llm o rt client input s)
        × Bracketed input.message_id (execute_llm_stream o rt client input s)
  calls-Bracketed s new = (execute_llm-Bracketed s new, execute_llm_stream-Bracketed s new)
