-- ===== src/Examples/Connections.antt =====
-- The registry of connected devices and message IDs at concrete inputs.
use spark_server.Base.{◌≤◌, arith, ◌≢◌, ◌≡◌, some, none, codes, ◌++◌, [], ◌∷◌}
use spark_server.Protocol.Tcp.MessageIds.{id_after, token_for_message_id, ids_differ}
use spark_server.Protocol.Tcp.Registry.{
  Registry, new_registry, register, register_client, touch, unregister, get, get_client,
}
use spark_server.Protocol.Tcp.Registry.Connected.{
  Reachable, start, next, registers_client, IsRegistry, Reachable-IsRegistry, others_kept,
  Elsewhere, stays, goes, registers, touches, registers_client, unregisters,
  unregister_closes_newer,
}

abbrev one : Registry
one = register_client (codes "a") (codes "10.0.0.1") 1 100 new_registry

one-Reachable : Reachable one
one-Reachable =
    next new_registry one start (registers_client (codes "a") (codes "10.0.0.1") 1 100 new_registry)

Reachable-IsRegistry_example : IsRegistry one
Reachable-IsRegistry_example = Reachable-IsRegistry one one-Reachable

abbrev heard : Registry
heard = (touch (codes "ab") 101 (register (codes "ab") (codes "10.0.0.2") 100 one)).1

abbrev left : Registry
left = unregister (codes "ab") (register_client (codes "ab") (codes "10.0.0.3") 2 102 heard)

-- Another device connects, is heard of, connects again and leaves.
gone : Elsewhere (codes "a") one left
gone =
    goes _ _ _
      (goes _ _ _
        (goes _ _ _
          (goes _ _ _ (stays one) (registers (codes "ab") (codes "10.0.0.2") 100 one) (λ e. cc))
          (touches (codes "ab") 101 (register (codes "ab") (codes "10.0.0.2") 100 one)) (λ e. cc))
        (registers_client (codes "ab") (codes "10.0.0.3") 2 102 heard) (λ e. cc))
      (unregisters (codes "ab") (register_client (codes "ab") (codes "10.0.0.3") 2 102 heard))
      (λ e. cc)

others_kept_example :
    (get (codes "a") left ≡ get (codes "a") one)
    × (get_client (codes "a") left ≡ get_client (codes "a") one)
others_kept_example = others_kept (codes "a") one left gone

unregister_closes_newer_example :
    let again =
      register_client
        (codes "a")
        (codes "10.0.0.3")
        3
        102
        (register_client (codes "a") (codes "10.0.0.1") 1 100 new_registry) in
    (get_client (codes "a") again ≡ some 3)
    × (get (codes "a") (unregister (codes "a") again) ≡ none)
    × (get_client (codes "a") (unregister (codes "a") again) ≡ none)
    × ((unregister (codes "a") again).closed ≡ new_registry.closed ++ 3 ∷ [])
unregister_closes_newer_example =
    unregister_closes_newer new_registry (codes "a") (codes "10.0.0.1") (codes "10.0.0.3") 1 3 100
      102

ids_differ_example :
    (1 ≤ id_after 3)
    × (id_after 3 ≤ 65535)
    × (id_after 3 ≢ id_after 5)
    × (token_for_message_id (id_after 3) ≢ token_for_message_id (id_after 5))
ids_differ_example = ids_differ 3 5 (omega arith) (omega arith)
