-- ===== src/Protocol/Tcp/Registry/Connected.antt =====
-- The calls of a registry as steps, and what holds after any sequence of them.
use spark_server.Base.{
  ◌≢◌, ℕ, suc, ◌+◌, ◌≡◌, refl, ap, ◌∙◌, true, false, [], ◌∷◌, ◌++◌, Bytes, same_bytes,
  same_bytes_iff, Option, none, some, if◌then◌else◌, arith,
}
use spark_server.Base.Maps.{
  lookup, store, is_some, IsMap, lookup-store, lookup-remove, store-IsMap, remove-IsMap,
  length-store, length-remove,
}
use spark_server.Protocol.Tcp.Registry.{
  close_with_error, Connection, Registry, new_registry, new_connection, register, register_client,
  touch, touched, unregister, get, get_client, count,
}

-- A call that changes a registry.
pub data Step : Registry → Registry → Type 0 where
  registers : (id addr : Bytes) (now : ℕ) (r : Registry) → Step r (register id addr now r)
  registers_client :
      (id addr : Bytes) (client now : ℕ) (r : Registry)
      → Step r (register_client id addr client now r)
  touches : (id : Bytes) (now : ℕ) (r : Registry) → Step r (touch id now r).1
  unregisters : (id : Bytes) (r : Registry) → Step r (unregister id r)

-- The registries that calls make of a new one.
pub data Reachable : Registry → Type 0 where
  start : Reachable new_registry
  next : (r s : Registry) → Reachable r → Step r s → Reachable s

-- No device is listed twice, a connection is listed under its device, and a device with a client is
-- connected.
pub record IsRegistry (r : Registry) : Type 0 where
  pub connections : IsMap r.connections
  pub clients : IsMap r.clients
  pub named : (id : Bytes) (c : Connection) → get id r ≡ some c → c.device_id ≡ id
  pub connected :
      (id : Bytes) (client : ℕ) → get_client id r ≡ some client → is_some (get id r) ≡ true

register-IsRegistry :
    (id addr : Bytes) (now : ℕ) (r : Registry) → IsRegistry r → IsRegistry (register id addr now r)
unfolding register get get_client
register-IsRegistry id addr now r h = record {
  connections = store-IsMap id (new_connection id addr now) r.connections h.connections;
  clients = h.clients;
  named = λ j c e. ground (
    arith,
    lookup-store j id (new_connection id addr now) r.connections,
    same_bytes_iff id j,
    h.named j c,
  );
  connected = λ j client e.
      ground
        (arith, lookup-store j id (new_connection id addr now) r.connections, h.connected j client);
}

register_client-IsRegistry :
    (id addr : Bytes) (client now : ℕ) (r : Registry)
    → IsRegistry r
    → IsRegistry (register_client id addr client now r)
unfolding register_client get get_client
register_client-IsRegistry id addr client now r h = record {
  connections = store-IsMap id (new_connection id addr now) r.connections h.connections;
  clients = store-IsMap id client r.clients h.clients;
  named = λ j c e. ground (
    arith,
    lookup-store j id (new_connection id addr now) r.connections,
    same_bytes_iff id j,
    h.named j c,
  );
  connected = λ j other e. ground (
    arith,
    lookup-store j id (new_connection id addr now) r.connections,
    lookup-store j id client r.clients,
    h.connected j other,
  );
}

unregister-IsRegistry : (id : Bytes) (r : Registry) → IsRegistry r → IsRegistry (unregister id r)
unfolding unregister get get_client
unregister-IsRegistry id r h = record {
  connections = remove-IsMap id r.connections h.connections;
  clients = remove-IsMap id r.clients h.clients;
  named = λ j c e. ground (arith, lookup-remove j id r.connections, h.named j c);
  connected = λ j client e.
      ground (
        arith,
        lookup-remove j id r.connections,
        lookup-remove j id r.clients,
        h.connected j client,
      );
}

touched-IsRegistry :
    (id : Bytes) (now : ℕ) (r : Registry) (o : Option Connection)
    → lookup id r.connections ≡ o
    → IsRegistry r
    → IsRegistry (touched now id o r).1
unfolding get get_client
touched-IsRegistry id now r none e h = h
touched-IsRegistry id now r (some c) e h =
    let seen = record c { last_seen_at = now } in
    record {
      connections = store-IsMap id seen r.connections h.connections;
      clients = h.clients;
      named = λ j d f. ground (
        arith,
        lookup-store j id seen r.connections,
        same_bytes_iff id j,
        h.named j d,
        h.named id c e,
      );
      connected =
          λ j client f. ground (arith, lookup-store j id seen r.connections, h.connected j client);
    }

Step-IsRegistry : (r s : Registry) → Step r s → IsRegistry r → IsRegistry s
unfolding touch
Step-IsRegistry r s (registers id addr now _) h = register-IsRegistry id addr now r h
Step-IsRegistry r s (registers_client id addr client now _) h =
    register_client-IsRegistry id addr client now r h
Step-IsRegistry r s (touches id now _) h =
    touched-IsRegistry id now r (lookup id r.connections) refl h
Step-IsRegistry r s (unregisters id _) h = unregister-IsRegistry id r h

-- Whatever calls were made of a new registry: no device is listed twice, each connection is listed
-- under its own device, and each device that has a client is connected.
pub Reachable-IsRegistry : (r : Registry) → Reachable r → IsRegistry r
unfolding new_registry get get_client
Reachable-IsRegistry _ start = record {
  connections = tt;
  clients = tt;
  named = λ j c e. cc;
  connected = λ j client e. cc;
}
Reachable-IsRegistry s (next r _ reached step) =
    Step-IsRegistry r s step (Reachable-IsRegistry r reached)

-- A registration counts a device that was not connected and no other, and the end of a connection
-- takes one from the count where the device was connected.
pub count_changes :
    (r : Registry) (id addr : Bytes) (client now : ℕ)
    → IsRegistry r
    → (count (register_client id addr client now r)
        ≡ (if is_some (get id r) then count r else suc (count r)))
      × (count (unregister id r) + (if is_some (get id r) then 1 else 0) ≡ count r)
unfolding count get register_client unregister
count_changes r id addr client now h = (
  length-store id (new_connection id addr now) r.connections,
  length-remove id r.connections h.connections,
)

-- The device that a call is for.
abbrev pub device_of : (r s : Registry) → Step r s → Bytes
device_of r s (registers id addr now _) = id
device_of r s (registers_client id addr client now _) = id
device_of r s (touches id now _) = id
device_of r s (unregisters id _) = id

-- The connection and the client of a device are the same in two registries.
abbrev SameFor : Bytes → Registry → Registry → Type 0
SameFor id r s = (get id s ≡ get id r) × (get_client id s ≡ get_client id r)

touched-SameFor :
    (id other : Bytes) (now : ℕ) (r : Registry) (o : Option Connection)
    → same_bytes id other ≡ false
    → SameFor other r (touched now id o r).1
unfolding get get_client
touched-SameFor id other now r none apart = (refl, refl)
touched-SameFor id other now r (some c) apart =
    (lookup-store other id (record c { last_seen_at = now }) r.connections ∙ rw apart refl, refl)

Step-SameFor :
    (other : Bytes) (r s : Registry) (step : Step r s)
    → same_bytes (device_of r s step) other ≡ false
    → SameFor other r s
unfolding get get_client register register_client unregister touch
Step-SameFor other r s (registers id addr now _) apart =
    (lookup-store other id (new_connection id addr now) r.connections ∙ rw apart refl, refl)
Step-SameFor other r s (registers_client id addr client now _) apart = (
  lookup-store other id (new_connection id addr now) r.connections ∙ rw apart refl,
  lookup-store other id client r.clients ∙ rw apart refl,
)
Step-SameFor other r s (touches id now _) apart =
    touched-SameFor id other now r (lookup id r.connections) apart
Step-SameFor other r s (unregisters id _) apart = (
  lookup-remove other id r.connections ∙ rw apart refl,
  lookup-remove other id r.clients ∙ rw apart refl,
)

-- What a sequence of calls that are for other devices makes of a registry.
pub data Elsewhere (other : Bytes) : Registry → Registry → Type 0 where
  stays : (r : Registry) → Elsewhere other r r
  goes :
      (r s t : Registry)
      → Elsewhere other r s
      → (step : Step s t) → device_of s t step ≢ other
      → Elsewhere other r t

-- However many devices connect, register clients, are heard of and leave, in whichever order: the
-- connection and the client of a device that none of those calls is for are the ones that it had.
pub others_kept :
    (other : Bytes) (r s : Registry)
    → Elsewhere other r s
    → (get other s ≡ get other r) × (get_client other s ≡ get_client other r)
others_kept other r _ (stays _) = (refl, refl)
others_kept other r t (goes _ s _ before step differ) =
    let apart : same_bytes (device_of s t step) other ≡ false =
      ground (arith, (same_bytes_iff (device_of s t step) other).0) in
    let (connection, client) = Step-SameFor other s t step apart in
    let (connection', client') = others_kept other r s before in
    (connection ∙ connection', client ∙ client')

-- A device that connects again before its first connection has ended: the end of the first one
-- closes and removes the client of the second, whatever the registry was before, and closes no
-- other.
pub unregister_closes_newer :
    (r : Registry) (id addr addr2 : Bytes) (old new time time2 : ℕ)
    → let again = register_client id addr2 new time2 (register_client id addr old time r) in
      (get_client id again ≡ some new)
      × (get id (unregister id again) ≡ none)
      × (get_client id (unregister id again) ≡ none)
      × ((unregister id again).closed ≡ r.closed ++ new ∷ [])
unfolding get get_client register_client unregister
unregister_closes_newer r id addr addr2 old new time time2 =
    let self = (same_bytes_iff id id).1 refl in
    let connections =
      store id (new_connection id addr2 time2)
        (store id (new_connection id addr time) r.connections) in
    let clients = store id new (store id old r.clients) in
    let held : lookup id clients ≡ some new =
      lookup-store id id new (store id old r.clients) ∙ rw self refl in
    (
      held,
      lookup-remove id id connections ∙ rw self refl,
      lookup-remove id id clients ∙ rw self refl,
      ap (λ c. close_with_error c r.closed) held,
    )
