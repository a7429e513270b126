-- ===== src/Tests/Server.antt =====
-- Runs of the theorems on the handlers of the protocol and on the server's broadcast, with replicas
-- that are lists of edits.
use flow_cloud.Base.{
  ℕ, ◌≡◌, refl, ◌∙◌, true, not, ◌||◌, some, List, [], ◌∷◌, ◌++◌, ok, contains, contains-append,
  retain, nat_eq, codes,
}
use flow_cloud.Base.Heap.Total.{contains-retain}
use flow_cloud.Protocol.Replica.{Replica, IsLawful}
use flow_cloud.Protocol.Handlers.Converge.{exchange, exchange-Converges}
use flow_cloud.Entity.Client.{ClientCollabMessage, client_update_sync}
use flow_cloud.Broadcast.{handle_client_collab_message}
use flow_cloud.Broadcast.Acks.{AreAcks, handle_client_collab_message-AreAcks}
use flow_cloud.Tests.Data.{tiny_api, tiny_codec, tiny_codec-IsLawful}

abbrev pub tiny_replica : Replica tiny_codec
tiny_replica = record {
  Awareness = List ℕ;
  Update = List ℕ;
  is_free = λ a. true;
  state_vector = λ a. a;
  encode_state_as_update = λ a sv. retain (λ e. not (contains sv e)) a;
  decode_update = λ b. ok b;
  apply_update = λ a u. some (a ++ u);
  awareness_update = λ a. some [];
  apply_awareness = λ a u. some a;
  Edit = ℕ;
  has = contains;
  covers = contains;
}

pub tiny_replica-IsLawful : IsLawful tiny_replica
tiny_replica-IsLawful = record {
  covers-state_vector = λ a e. refl;
  exchanged = λ a b sv h. (
    retain (λ e. not (contains sv e)) a,
    b ++ retain (λ e. not (contains sv e)) a,
    refl,
    refl,
    refl,
    λ e.
        contains-append b (retain (λ e'. not (contains sv e')) a) e
        ∙ rw (contains-retain (λ e'. not (contains sv e')) a e) refl,
  );
}

exchange-Converges_example :
    (client' server' : List ℕ) × (exchange tiny_replica (1 ∷ 2 ∷ []) (2 ∷ 3 ∷ [])
      ≡ ok (client', server'))
    × ((e : ℕ) → contains client' e ≡ contains (1 ∷ 2 ∷ []) e || contains (2 ∷ 3 ∷ []) e)
    × ((e : ℕ) → contains server' e ≡ contains (1 ∷ 2 ∷ []) e || contains (2 ∷ 3 ∷ []) e)
exchange-Converges_example =
    exchange-Converges tiny_codec-IsLawful tiny_replica tiny_replica-IsLawful (1 ∷ 2 ∷ [])
      (2 ∷ 3 ∷ []) refl refl

abbrev two_edits : ClientCollabMessage tiny_api
two_edits = client_update_sync (record {
  origin = 1;
  object_id = codes "doc";
  msg_id = 4;
  payload = 0 ∷ 2 ∷ 1 ∷ 7 ∷ 0 ∷ 2 ∷ 1 ∷ 8 ∷ [];
})

handle_client_collab_message-AreAcks_example :
    AreAcks tiny_replica
      (codes "doc")
      two_edits
      (handle_client_collab_message tiny_replica (codes "doc") two_edits (λ i. true) []).1
handle_client_collab_message-AreAcks_example =
    handle_client_collab_message-AreAcks tiny_replica (codes "doc") two_edits (λ i. true) []
