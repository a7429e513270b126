-- ===== src/Tests/Entity.antt =====
-- Runs of the theorems on the messages of the clients and of the server.
use flow_cloud.Base.{◌≡◌, refl, none, some, List, [], ◌∷◌, codes}
use flow_cloud.Entity.Payload.{UpdateSync, AwarenessSync, MsgId}
use flow_cloud.Entity.Client
use flow_cloud.Entity.Client.{ClientCollabMessage, client_update_sync, client_awareness_sync}
use flow_cloud.Entity.Realtime.{singly, last_about}
use flow_cloud.Tests.Data.{tiny_api}

abbrev an_update : MsgId → UpdateSync tiny_api
an_update id = record { origin = 1; object_id = codes "doc"; msg_id = id; payload = 7 ∷ [] }

abbrev two_updates : List (ClientCollabMessage tiny_api)
two_updates = client_update_sync (an_update 0) ∷ client_update_sync (an_update 1) ∷ []

abbrev an_awareness : AwarenessSync tiny_api
an_awareness = record { object_id = codes "doc"; payload = 7 ∷ []; origin = 0 }

last_of_two :
    singly (last_about (codes "doc") none two_updates)
    ≡ some (client_update_sync (an_update 1) ∷ [])
unfolding Client.object_id
last_of_two = refl
