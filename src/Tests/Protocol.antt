-- ===== src/Tests/Protocol.antt =====
-- Runs of the theorems on the protocol's messages.
use flow_cloud.Base.{◌≡◌, some, List, [], ◌∷◌, arith, codes}
use flow_cloud.Protocol.Message.{Message, sync, auth, awareness, update}
use flow_cloud.Protocol.RoundTrip.{encode_all, read_all, read_all-encode_all}
use flow_cloud.Tests.Data.{tiny_codec, tiny_codec-IsLawful}

abbrev some_messages : List (Message tiny_codec)
some_messages = sync (update (7 ∷ 8 ∷ [])) ∷ auth (some (codes "no")) ∷ awareness (3 ∷ []) ∷ []

read_all-encode_all_example :
    read_all tiny_codec 4 (encode_all tiny_codec some_messages) ≡ some some_messages
read_all-encode_all_example =
    read_all-encode_all tiny_codec tiny_codec-IsLawful 4 some_messages (omega arith)
