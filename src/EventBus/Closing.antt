-- ===== src/EventBus/Closing.antt =====
-- What closing a list of channels does.
use agent_sdk_go.Prelude.{
  ℕ, ◌+◌, ◌≤◌, ◌≡◌, inl, inr, refl, sym, ap, ◌∙◌, Bool, true, false, List, [], ◌∷◌, String,
  string_eq, arith, nat_beq, if◌then◌else◌,
}
use agent_sdk_go.Prelude.GoMap.{GoMap}
use agent_sdk_go.EventBus.{Chan, Inmem, write, close_chan, close_list, close_entries}
use agent_sdk_go.EventBus.Channels.{occurs, listed, bit}
use agent_sdk_go.EventBus.Safety.{write_cases}

-- Channels that were open are closed as often as they are counted, which is once at most.
pub record Closing (count : ℕ → ℕ) (c c' : Inmem) : Type 0 where
  pub calm : c'.panicked ≡ c.panicked
  pub same_next : c'.next ≡ c.next
  pub same_subs : c'.subs ≡ c.subs
  pub closes : (ch : ℕ) → bit (c'.heap ch).is_open + count ch ≡ bit (c.heap ch).is_open

close_open :
    (c : Inmem) (ch : ℕ)
    → (c.heap ch).is_open ≡ true
    → close_chan c ch ≡ write c ch (record (c.heap ch) { is_open = false })
unfolding close_chan
close_open c ch e =
    ap
      (λ (b : Bool).
        if b
        then write c ch (record (c.heap ch) { is_open = false })
        else record c { panicked = true })
      e

pub close_chan-Closing :
    (c : Inmem) (ch : ℕ)
    → (c.heap ch).is_open ≡ true
    → Closing (λ i. if nat_beq ch i then 1 else 0) c (close_chan c ch)
close_chan-Closing c ch e =
    let x : Chan = record (c.heap ch) { is_open = false } in
    let closes : (i : ℕ)
        → bit ((write c ch x).heap i).is_open + (if nat_beq ch i then 1 else 0)
          ≡ bit (c.heap i).is_open =
      λ i. elim (write_cases c ch i x) [
        | inl (here, written) ↦
            let test : nat_beq ch i ≡ true = ground arith in
            let open_i = sym (ap (λ j. (c.heap j).is_open) here) ∙ e in
            rw (test, written, open_i) (omega arith)
        | inr (other, kept) ↦ rw (other, kept) (omega arith)
      ] in
    let done : Closing (λ i. if nat_beq ch i then 1 else 0) c (write c ch x) = record {
      calm = refl;
      same_next = refl;
      same_subs = refl;
      closes = closes;
    } in
    rw (close_open c ch e) done

Closing-then :
    (m n k : ℕ → ℕ) (a b c : Inmem)
    → Closing m a b
    → Closing n b c
    → ((i : ℕ) → m i + n i ≡ k i)
    → Closing k a c
Closing-then m n k a b c p q same = record {
  calm = q.calm ∙ p.calm;
  same_next = q.same_next ∙ p.same_next;
  same_subs = q.same_subs ∙ p.same_subs;
  closes = λ i. omega (arith, p.closes i, q.closes i, same i);
}

pub close_list-Closing :
    (c : Inmem) (chs : List ℕ)
    → ((i : ℕ) → occurs i chs ≤ bit (c.heap i).is_open)
    → Closing (λ i. occurs i chs) c (close_list c chs)
unfolding close_list occurs
close_list-Closing c [] fits = record {
  calm = refl;
  same_next = refl;
  same_subs = refl;
  closes = λ i. omega arith;
}
close_list-Closing c (ch ∷ chs) fits =
    let is_open : (c.heap ch).is_open ≡ true = ground (arith, fits ch) in
    let first = close_chan-Closing c ch is_open in
    let rest =
      close_list-Closing (close_chan c ch) chs (λ i. omega (arith, first.closes i, fits i)) in
    Closing-then _ _ _ c (close_chan c ch) _ first rest (λ i. refl)

pub close_entries-Closing :
    (c : Inmem) (m : GoMap String (List ℕ))
    → ((i : ℕ) → listed i m ≤ bit (c.heap i).is_open)
    → Closing (λ i. listed i m) c (close_entries c m)
unfolding close_entries listed
close_entries-Closing c [] fits = record {
  calm = refl;
  same_next = refl;
  same_subs = refl;
  closes = λ i. omega arith;
}
close_entries-Closing c ((channel, chs) ∷ rest) fits =
    let first = close_list-Closing c chs (λ i. omega (arith, fits i)) in
    let later =
      close_entries-Closing (close_list c chs) rest (λ i. omega (arith, first.closes i, fits i)) in
    Closing-then _ _ _ c (close_list c chs) _ first later (λ i. refl)
