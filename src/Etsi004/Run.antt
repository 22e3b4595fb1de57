-- ===== src/Etsi004/Run.antt =====
-- Sequences of calls of `Km004` (etsi004.ts): a call with its arguments, what it does to the map of
-- streams, and a run of calls, each in an environment of its own.
use pqc_qkd_hybrid_network.Base.{ℕ, String, Option, List, [], ◌∷◌}
use pqc_qkd_hybrid_network.Etsi004.Stream.{Side, Qos, Env}
use pqc_qkd_hybrid_network.Etsi004.Km.{Km, open_connect, supply, get_key, close, clear}

pub data Call : Type 0 where
  opens : Side → (source destination : String) → Qos → Option String → Call
  supplies : String → List ℕ → (hops : ℕ) → Call
  gets : Side → String → Option ℕ → (metadata_size : ℕ) → Call
  closes : Side → String → Call
  clears : Call

unfoldable pub step : Km → Env × Call → Km
step m (env, opens side source destination qos ksid) =
    (open_connect env m side source destination qos ksid).0
step m (env, supplies ksid bytes hops) = (supply env m ksid bytes hops).0
step m (env, gets side ksid index size) = (get_key env m side ksid index size).0
step m (env, closes side ksid) = (close m side ksid).0
step m (env, clears) = clear m

unfoldable pub run : Km → List (Env × Call) → Km
unfolding step
run m [] = m
run m (c ∷ cs) = run (step m c) cs
