-- ===== src/Store/Examples.antt =====
-- A store with a few calls.
use agent_sdk_go.Prelude.{
  ℕ, ◌≡◌, refl, List, [], ◌∷◌, none, some, String, string_eq, nat_eq, true, false,
}
use agent_sdk_go.Prelude.GoMap
use agent_sdk_go.Store.{new_kv, set, get, pop, delete_if}
use agent_sdk_go.Store.Refinement.{
  Call, sets, gets, pops, deletes_if, done, value, flag, run, run_spec, run_refines,
}

abbrev calls : List (Call String ℕ)
calls = sets "a" 1 ∷ sets "b" 2 ∷ deletes_if "a" 3 ∷ deletes_if "a" 1 ∷ pops "a" ∷ gets "b" ∷ []

replies :
    (run new_kv calls).1 ≡ done ∷ done ∷ flag false ∷ flag true ∷ value none ∷ value (some 2) ∷ []
unfolding set get delete_if pop GoMap.lookup GoMap.insert GoMap.delete
replies = refl

run_refines_example :
    ((run new_kv calls).1 ≡ (run_spec (λ _. none) calls).1)
    × (get (run new_kv calls).0 "b" ≡ (run_spec (λ _. none) calls).0 "b")
run_refines_example = run_refines calls "b"
