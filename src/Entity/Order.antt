-- ===== src/Entity/Order.antt =====
-- The order in which a queue hands messages out (`Ord` of the messages) is a total preorder.
use flow_cloud.Base.{◌≡◌, ◌≢◌, arith}
use flow_cloud.Base.Heap.{less, reversed, IsPreorder}
use flow_cloud.Entity.Payload.{CollabApi}
use flow_cloud.Entity.Collab
use flow_cloud.Entity.Collab.{CollabMessage}
use flow_cloud.Entity.Client
use flow_cloud.Entity.Client.{ClientCollabMessage}

module _ {c : CollabApi} where
  client_swapped : (a b : ClientCollabMessage c) → Client.cmp b a ≡ reversed (Client.cmp a b)
  unfolding Client.cmp
  client_swapped (ClientCollabMessage.client_init_sync m) b = ground arith
  client_swapped _ b = ground arith

  client_transitive :
      (a b d : ClientCollabMessage c)
      → Client.cmp a b ≢ less
      → Client.cmp b d ≢ less
      → Client.cmp a d ≢ less
  unfolding Client.cmp
  client_transitive (ClientCollabMessage.client_init_sync m) b d h k = ground arith
  client_transitive _ b d h k = ground arith

  -- `Ord` of client messages is a total preorder.
  pub client_cmp-IsPreorder : IsPreorder (Client.cmp {c = c})
  client_cmp-IsPreorder = record { swapped = client_swapped; transitive = client_transitive }

  collab_swapped : (a b : CollabMessage c) → Collab.cmp b a ≡ reversed (Collab.cmp a b)
  unfolding Collab.cmp
  collab_swapped (CollabMessage.client_init_sync m) b = ground arith
  collab_swapped _ b = ground arith

  collab_transitive :
      (a b d : CollabMessage c)
      → Collab.cmp a b ≢ less
      → Collab.cmp b d ≢ less
      → Collab.cmp a d ≢ less
  unfolding Collab.cmp
  collab_transitive (CollabMessage.client_init_sync m) b d h k = ground arith
  collab_transitive _ b d h k = ground arith

  -- `Ord` of `CollabMessage` is a total preorder.
  pub collab_cmp-IsPreorder : IsPreorder (Collab.cmp {c = c})
  collab_cmp-IsPreorder = record { swapped = collab_swapped; transitive = collab_transitive }
