-- ===== src/Protocol/Replica.antt =====
-- What the protocol's handlers take from the crates yrs and collab: a replica of a document, with its
-- awareness, as a state that calls return.
use flow_cloud.Base.{◌≡◌, Bool, true, not, ◌&&◌, ◌||◌, Option, some, Result, ok}
use flow_cloud.Protocol.Codec.{Bytes, Codec}

pub record Replica (y : Codec) : Type 1 where
  pub Awareness : Type 0
  pub Update : Type 0
  -- Whether a transaction can be had, by `try_transact` or a `TransactionRetry`.
  pub is_free : Awareness → Bool
  pub state_vector : Awareness → y.StateVector
  pub encode_state_as_update : Awareness → y.StateVector → Bytes
  pub decode_update : Bytes → Result Update y.ReadError
  -- `try_apply_update`; no state when it fails.
  pub apply_update : Awareness → Update → Option Awareness
  -- The awareness's own update, and the application of one; nothing when they fail.
  pub awareness_update : Awareness → Option y.AwarenessUpdate
  pub apply_awareness : Awareness → y.AwarenessUpdate → Option Awareness
  -- What a replica and a state vector stand for: the edits that they have.
  pub Edit : Type 0
  pub has : Awareness → Edit → Bool
  pub covers : y.StateVector → Edit → Bool

-- A state vector covers the edits of its replica. The update for a state vector holds the edits that it
-- does not cover; a replica that has what the vector covers can apply it, and then has these edits too.
pub record IsLawful {y : Codec} (r : Replica y) : Type 0 where
  pub covers-state_vector :
      (a : r.Awareness) (e : r.Edit) → r.covers (r.state_vector a) e ≡ r.has a e
  pub exchanged :
      (a b : r.Awareness) (sv : y.StateVector)
      → ((e : r.Edit) → r.covers sv e ≡ true → r.has b e ≡ true)
      → (u : r.Update) × (b' : r.Awareness) × (r.decode_update (r.encode_state_as_update a sv)
          ≡ ok u)
        × (r.apply_update b u ≡ some b')
        × (r.is_free b' ≡ r.is_free b)
        × ((e : r.Edit) → r.has b' e ≡ r.has b e || (r.has a e && not (r.covers sv e)))
