-- ===== src/Tests/WsQueue.antt =====
-- Runs of the theorems on the queue in front of the WebSocket.
use flow_cloud.Base.{◌≤◌, List, [], ◌∷◌, arith, codes}
use flow_cloud.Entity.Client
use flow_cloud.Entity.Client.{ClientCollabMessage, client_update_sync, client_init_sync}
use flow_cloud.WsQueue.{next_batch_message}
use flow_cloud.WsQueue.Batches.{IsBatchOf, next_batch_message-IsBatchOf, init_weight}
use flow_cloud.Base.Heap.Total.{total}
use flow_cloud.Tests.Data.{tiny_api}

abbrev some_queue : List (ClientCollabMessage tiny_api)
some_queue =
    client_update_sync (record { origin = 1; object_id = codes "a"; msg_id = 0; payload = 7 ∷ [] })
    ∷ client_init_sync (record {
      origin = 1;
      object_id = codes "b";
      collab_type = tt;
      workspace_id = codes "w";
      msg_id = 1;
      payload = 8 ∷ 9 ∷ [];
    })
    ∷ []

next_batch_message-IsBatchOf_example : IsBatchOf some_queue (next_batch_message 64 some_queue)
next_batch_message-IsBatchOf_example = next_batch_message-IsBatchOf 64 some_queue

few_inits : total init_weight some_queue ≤ 10
unfolding Client.is_init_sync
few_inits = omega arith

small_messages : total Client.size some_queue ≤ 64
unfolding Client.size
small_messages = omega arith
