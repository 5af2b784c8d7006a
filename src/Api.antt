-- ===== src/Api.antt =====
-- The whole API over one store: which texts are made into ids, and what the endpoints keep true.
pub mod Ids
pub mod Consistency
pub mod Writes
pub mod Scenarios
pub mod Solving
pub mod Running
pub mod Reachable
pub mod Live
pub mod Kept
use piggyon.Base.{ℕ, ◌≡◌, ◌≢◌, String}

-- The ids that are made of the store's sequences: `SCN-001`, `RUN-001`, `SCN-ALT-001`,
-- `RUN-ALT-001`.
pub record Naming : Type 0 where
  pub scenario_id_of : ℕ → String
  pub run_id_of : ℕ → String
  pub alternative_scenario_id_of : ℕ → String
  pub alternative_run_id_of : ℕ → String

-- What the format of the ids gives: no two runs have one id.
pub record IsNaming (n : Naming) : Type 0 where
  pub runs_apart : (i j : ℕ) → n.run_id_of i ≡ n.run_id_of j → i ≡ j
  pub alternatives_apart : (i j : ℕ) → n.alternative_run_id_of i ≡ n.alternative_run_id_of j → i ≡ j
  pub kinds_apart : (i j : ℕ) → n.run_id_of i ≢ n.alternative_run_id_of j
