-- ===== src/Tests/Snowflake.antt =====
-- Runs of the theorems on the generation of ids.
use flow_cloud.Base.{ℕ, ◌+◌, [], ◌∷◌, arith}
use flow_cloud.Base.Int.{negsuc}
use flow_cloud.Snowflake.{Snowflake, new, issue}
use flow_cloud.Snowflake.Growth.{IsAscending, issue-new}

abbrev noon : ℕ
noon = 1717240000000

abbrev full_snowflake : Snowflake
full_snowflake = record { node_id = 1; sequence = 4095; last_timestamp = noon }

issue-new_example : IsAscending (negsuc 0) (issue 3 (new 1) (noon ∷ noon ∷ (noon + 1) ∷ []))
issue-new_example =
    issue-new 3 1 (noon ∷ noon ∷ (noon + 1) ∷ []) (omega arith) (omega arith)
      ((omega arith, omega arith), ((omega arith, omega arith), ((omega arith, omega arith), tt)))
