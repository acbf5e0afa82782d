-- ===== src/Aeron.antt =====
-- What the program takes from the Aeron client library, whose code is not in the repository: its
-- constants, and what its calls answer. They are parameters of the model.
use aeron_cluster_cpp.Prelude.{ℤ}

pub record Constants : Type 0 where
  -- aeron::NULL_VALUE
  pub null_value : ℤ
  -- archive::client::NULL_POSITION
  pub null_position : ℤ
  -- CountersReader::NULL_COUNTER_ID
  pub null_counter_id : ℤ
  -- The results of an offer or a claim that the program tells apart.
  pub not_connected : ℤ
  pub publication_closed : ℤ
  pub max_position_exceeded : ℤ

-- What a fragment handler tells the poll that called it.
pub data PollAction : Type 0 where
  continue break abort commit : PollAction
