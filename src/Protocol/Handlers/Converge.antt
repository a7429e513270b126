-- ===== src/Protocol/Handlers/Converge.antt =====
-- The exchange that the diagram of lib/realtime-protocol/src/protocol.rs shows, and where it ends.
use flow_cloud.Base.{
  ◌≡◌, refl, sym, ◌∙◌, ap, true, ◌||◌, Option, none, some, List, [], ◌∷◌, ◌++◌, Result, ok, err,
  ◌>>=◌, arith, length, ◌<◌,
}
use mathlib.Core.List.{append_assoc}
use flow_cloud.Protocol.Codec.{Bytes, Codec, IsLawful}
use flow_cloud.Protocol.Message.{Message, sync, sync_step1, sync_step2, encode}
use flow_cloud.Protocol.RoundTrip.{encode_all, read_all, read_all-encode_all}
use flow_cloud.Protocol.Replica.{Replica, IsLawful as IsLawfulReplica}
use flow_cloud.Protocol.Handlers.{
  Error, decoding_error, SyncProtocol, client_sync_protocol, server_sync_protocol,
  handle_collab_message, handle_sync_step2, decode_and, answer_and_ask, answer_sync_step1,
}

module _ {y : Codec} (r : Replica y) where
  -- A side handles the messages of a buffer in turn and collects its replies. It stops at an error.
  abbrev pub handle_all :
      SyncProtocol r → r.Awareness → List (Message y) → Result (r.Awareness × Bytes) (Error y)
  handle_all protocol a [] = ok (a, [])
  handle_all protocol a (m ∷ ms) = do
    reply ← (handle_collab_message r protocol a m).1
    (last, more) ← handle_all protocol (handle_collab_message r protocol a m).0 ms
    ok (last, elim reply [ none ↦ more | some bytes ↦ bytes ++ more ])

  -- A buffer of at most two messages; one that cannot be read is not handled.
  abbrev pub handle_buffer :
      SyncProtocol r → r.Awareness → Bytes → Result (r.Awareness × Bytes) (Error y)
  handle_buffer protocol a buffer = elim (read_all y 3 buffer) [
    | none ↦ ok (a, [])
    | some ms ↦ handle_all protocol a ms
  ]

  -- (1) the client's sync step 1, (2) the server's answer, (3) the client's answer to it.
  abbrev pub exchange : r.Awareness → r.Awareness → Result (r.Awareness × r.Awareness) (Error y)
  exchange client server = do
    (server1, answer) ←
        handle_buffer (server_sync_protocol r) server
          (encode_all y (sync (sync_step1 (r.state_vector client)) ∷ []))
    (client1, answer2) ← handle_buffer (client_sync_protocol r) client answer
    (server2, rest) ← handle_buffer (server_sync_protocol r) server1 answer2
    ok (client1, server2)

bind_ok :
    {A B E : Type 0} {m : Result A E} {a : A} {b : B} (f : A → Result B E)
    → m ≡ ok a
    → f a ≡ ok b
    → (m >>= f) ≡ ok b
bind_ok f h k = ap (λ x. x >>= f) h ∙ k

module _ {y : Codec} (laws : IsLawful y) (r : Replica y) (lawful : IsLawfulReplica r) where
  handle_buffer-encode_all :
      (protocol : SyncProtocol r) (a : r.Awareness) (ms : List (Message y))
      → length ms < 3
      → handle_buffer r protocol a (encode_all y ms) ≡ handle_all r protocol a ms
  handle_buffer-encode_all protocol a ms h =
      ap (λ o. elim o [ none ↦ ok (a, []) | some ms' ↦ handle_all r protocol a ms' ])
        (read_all-encode_all y laws 3 ms h)

  asked :
      (client server : r.Awareness)
      → handle_buffer r
          (server_sync_protocol r)
          server
          (encode_all y (sync (sync_step1 (r.state_vector client)) ∷ []))
        ≡ ok (
          server,
          encode_all y (
              sync (sync_step2 (r.encode_state_as_update server (r.state_vector client)))
              ∷ sync (sync_step1 (r.state_vector server))
              ∷ []),
        )
  unfolding handle_collab_message server_sync_protocol answer_and_ask
  asked client server =
      handle_buffer-encode_all (server_sync_protocol r) server
        (sync (sync_step1 (r.state_vector client)) ∷ []) (omega arith)
      ∙ ap (λ b. ok (server, b))
          (append_assoc
            (encode y (sync (sync_step2 (r.encode_state_as_update server (r.state_vector client)))))
            (encode y (sync (sync_step1 (r.state_vector server)))) [])

  update_applied :
      (a a' : r.Awareness) (u : r.Update)
      → r.is_free a ≡ true
      → r.apply_update a u ≡ some a'
      → handle_sync_step2 r a u ≡ (a', ok none)
  unfolding handle_sync_step2
  update_applied a a' u free applies = rw (free, applies) refl

  pub step2_applied :
      (protocol : SyncProtocol r) (a a' : r.Awareness) (bytes : Bytes) (u : r.Update)
      → r.is_free a ≡ true
      → r.decode_update bytes ≡ ok u
      → r.apply_update a u ≡ some a'
      → handle_collab_message r protocol a (sync (sync_step2 bytes)) ≡ (a', ok none)
  unfolding handle_collab_message decode_and
  step2_applied protocol a a' bytes u free decodes applies =
      ap (λ o. elim o [ ok v ↦ handle_sync_step2 r a v | err e ↦ (a, err (decoding_error e)) ])
        decodes
      ∙ update_applied a a' u free applies

  pub step1_answered :
      (a : r.Awareness) (sv : y.StateVector)
      → r.is_free a ≡ true
      → handle_collab_message r (client_sync_protocol r) a (sync (sync_step1 sv))
        ≡ (a, ok (some (encode y (sync (sync_step2 (r.encode_state_as_update a sv))))))
  unfolding handle_collab_message client_sync_protocol answer_sync_step1
  step1_answered a sv free = rw free refl

  handle_all-cons :
      (protocol : SyncProtocol r) (a a' last : r.Awareness) (m : Message y) (ms : List (Message y))
      (reply : Option Bytes) (more : Bytes)
      → handle_collab_message r protocol a m ≡ (a', ok reply)
      → handle_all r protocol a' ms ≡ ok (last, more)
      → handle_all r protocol a (m ∷ ms)
        ≡ ok (last, elim reply [ none ↦ more | some bytes ↦ bytes ++ more ])
  handle_all-cons protocol a a' last m ms reply more h k =
      bind_ok _ (ap (λ p. p.1) h) (bind_ok _ (ap (λ p. handle_all r protocol p.0 ms) h ∙ k) refl)

  answered :
      (client client' : r.Awareness) (bytes : Bytes) (u : r.Update) (sv : y.StateVector)
      → r.is_free client ≡ true
      → r.decode_update bytes ≡ ok u
      → r.apply_update client u ≡ some client'
      → r.is_free client' ≡ true
      → handle_buffer r
          (client_sync_protocol r)
          client
          (encode_all y (sync (sync_step2 bytes) ∷ sync (sync_step1 sv) ∷ []))
        ≡ ok (client', encode_all y (sync (sync_step2 (r.encode_state_as_update client' sv)) ∷ []))
  answered client client' bytes u sv free decodes applies free' =
      handle_buffer-encode_all (client_sync_protocol r) client
        (sync (sync_step2 bytes) ∷ sync (sync_step1 sv) ∷ []) (omega arith)
      ∙ handle_all-cons (client_sync_protocol r) client client' client' (sync (sync_step2 bytes))
          (sync (sync_step1 sv) ∷ []) none
          (encode y (sync (sync_step2 (r.encode_state_as_update client' sv))) ++ [])
          (step2_applied (client_sync_protocol r) client client' bytes u free decodes applies)
          (handle_all-cons (client_sync_protocol r) client' client' client' (sync (sync_step1 sv))
            [] (some (encode y (sync (sync_step2 (r.encode_state_as_update client' sv))))) []
            (step1_answered client' sv free') refl)

  received :
      (server server' : r.Awareness) (bytes : Bytes) (v : r.Update)
      → r.is_free server ≡ true
      → r.decode_update bytes ≡ ok v
      → r.apply_update server v ≡ some server'
      → handle_buffer r
          (server_sync_protocol r)
          server
          (encode_all y (sync (sync_step2 bytes) ∷ []))
        ≡ ok (server', [])
  received server server' bytes v free decodes applies =
      handle_buffer-encode_all (server_sync_protocol r) server (sync (sync_step2 bytes) ∷ [])
        (omega arith)
      ∙ handle_all-cons (server_sync_protocol r) server server' server' (sync (sync_step2 bytes)) []
          none []
          (step2_applied (server_sync_protocol r) server server' bytes v free decodes applies) refl

  -- With a lawful codec and lawful replicas, both ready for a transaction, the exchange succeeds, and
  -- afterwards the client and the server have the same edits: those that either had before.
  pub exchange-Converges :
      (client server : r.Awareness)
      → r.is_free client ≡ true
      → r.is_free server ≡ true
      → (client' : r.Awareness) × (server' : r.Awareness) × (exchange r client server
          ≡ ok (client', server'))
        × ((e : r.Edit) → r.has client' e ≡ r.has client e || r.has server e)
        × ((e : r.Edit) → r.has server' e ≡ r.has client e || r.has server e)
  exchange-Converges client server c_free s_free =
      let (u, client', u_decoded, u_applied, c_free', c_has) =
        lawful.exchanged server client (r.state_vector client)
          (λ e h. sym (lawful.covers-state_vector client e) ∙ h) in
      let (v, server', v_decoded, v_applied, s_free', s_has) =
        lawful.exchanged client' server (r.state_vector server)
          (λ e h. sym (lawful.covers-state_vector server e) ∙ h) in
      (
        client',
        server',
        bind_ok _ (asked client server) (
            bind_ok _
              (answered client client' _ u (r.state_vector server) c_free u_decoded u_applied
                (c_free' ∙ c_free))
              (bind_ok _ (received server server' _ v s_free v_decoded v_applied) refl)),
        λ e. ground (arith, c_has e, lawful.covers-state_vector client e),
        λ e. ground (
          arith,
          s_has e,
          c_has e,
          lawful.covers-state_vector client e,
          lawful.covers-state_vector server e,
        ),
      )
