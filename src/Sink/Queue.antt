-- ===== src/Sink/Queue.antt =====
-- lib/client-api/src/collab_sync/sink_queue.rs, and the trait `CollabSinkMessage` of
-- lib/realtime-entity/src/collab_msg.rs with its two implementations.
use flow_cloud.Base.{ℕ, Bool, Option, Result}
use flow_cloud.Base.Heap.{Ordering, IsPreorder}
use flow_cloud.Protocol.Codec.{Codec}
use flow_cloud.Entity.Payload.{CollabApi, MsgId}
use flow_cloud.Entity.Collab
use flow_cloud.Entity.Collab.{CollabMessage}
use flow_cloud.Entity.Client
use flow_cloud.Entity.Client.{ClientCollabMessage}
use flow_cloud.Entity.Order.{client_cmp-IsPreorder, collab_cmp-IsPreorder}

-- `merge` returns `self` afterwards, and whether the other message was merged into it.
pub record SinkMessage (M E : Type 0) : Type 0 where
  pub payload_size : M → ℕ
  pub mergeable : M → Bool
  pub merge : M → M → ℕ → Result (M × Bool) E
  pub is_client_init_sync : M → Bool
  pub is_server_init_sync : M → Bool
  pub is_update_sync : M → Bool
  pub set_msg_id : M → MsgId → M
  pub get_msg_id : M → Option MsgId
  pub cmp : M → M → Ordering
  pub cmp-IsPreorder : IsPreorder cmp

pub record QueueItem (M : Type 0) : Type 0 where
  pub inner : M
  pub msg_id : MsgId

module _ {M E : Type 0} (msg : SinkMessage M E) where
  -- `Ord` of an item is that of its message.
  abbrev pub item_cmp : QueueItem M → QueueItem M → Ordering
  item_cmp a b = msg.cmp a.inner b.inner

  pub item_cmp-IsPreorder : IsPreorder item_cmp
  item_cmp-IsPreorder = record {
    swapped = λ a b. msg.cmp-IsPreorder.swapped a.inner b.inner;
    transitive = λ a b d. msg.cmp-IsPreorder.transitive a.inner b.inner d.inner;
  }

module _ (y : Codec) (c : CollabApi) where
  abbrev pub client_sink_message : SinkMessage (ClientCollabMessage c) y.MergeError
  client_sink_message = record {
    payload_size = Client.size;
    mergeable = Client.is_update_sync;
    merge = Client.merge y;
    is_client_init_sync = Client.is_init_sync;
    is_server_init_sync = Client.is_server_init_sync;
    is_update_sync = Client.is_update_sync;
    set_msg_id = Client.set_msg_id;
    get_msg_id = Client.get_msg_id;
    cmp = Client.cmp;
    cmp-IsPreorder = client_cmp-IsPreorder;
  }

  abbrev pub collab_sink_message : SinkMessage (CollabMessage c) y.MergeError
  collab_sink_message = record {
    payload_size = Collab.len;
    mergeable = Collab.is_update_sync;
    merge = Collab.merge y;
    is_client_init_sync = Collab.is_client_init_sync;
    is_server_init_sync = Collab.is_server_init_sync;
    is_update_sync = Collab.is_update_sync;
    set_msg_id = Collab.set_msg_id;
    get_msg_id = Collab.msg_id;
    cmp = Collab.cmp;
    cmp-IsPreorder = collab_cmp-IsPreorder;
  }
