-- ===== src/Protocol/Tcp/Registry.antt =====
-- internal/protocol/tcp/registry.go: the devices that are connected. A client is known by a number,
-- and `closed` lists those that were told to close, in their order.
pub mod Connected
use spark_server.Base.{ℕ, Bool, true, false, List, [], ◌∷◌, ◌++◌, Bytes, Option, none, some, length}
use spark_server.Base.Maps.{lookup, store, remove}

pub record Connection : Type 0 where
  pub device_id : Bytes
  pub remote_addr : Bytes
  pub connected_at : ℕ
  pub last_seen_at : ℕ

pub record Registry : Type 0 where
  pub connections : List (Bytes × Connection)
  pub clients : List (Bytes × ℕ)
  pub closed : List ℕ

unfoldable pub new_registry : Registry
new_registry = record { connections = []; clients = []; closed = [] }

abbrev pub new_connection : Bytes → Bytes → ℕ → Connection
new_connection id addr now = record {
  device_id = id;
  remote_addr = addr;
  connected_at = now;
  last_seen_at = now;
}

unfoldable pub register : Bytes → Bytes → ℕ → Registry → Registry
register id addr now r = record r {
  connections = store id (new_connection id addr now) r.connections;
}

unfoldable pub register_client : Bytes → Bytes → ℕ → ℕ → Registry → Registry
register_client id addr client now r = record r {
  connections = store id (new_connection id addr now) r.connections;
  clients = store id client r.clients;
}

abbrev pub touched : ℕ → Bytes → Option Connection → Registry → Bool × Registry
touched now id none r = (false, r)
touched now id (some connection) r = (
  true,
  record r { connections = store id (record connection { last_seen_at = now }) r.connections },
)

unfoldable pub touch : Bytes → ℕ → Registry → Bool × Registry
touch id now r = touched now id (lookup id r.connections) r

abbrev pub close_with_error : Option ℕ → List ℕ → List ℕ
close_with_error none closed = closed
close_with_error (some client) closed = closed ++ client ∷ []

unfoldable pub unregister : Bytes → Registry → Registry
unregister id r = record {
  connections = remove id r.connections;
  clients = remove id r.clients;
  closed = close_with_error (lookup id r.clients) r.closed;
}

unfoldable pub get : Bytes → Registry → Option Connection
get id r = lookup id r.connections

unfoldable pub get_client : Bytes → Registry → Option ℕ
get_client id r = lookup id r.clients

unfoldable pub count : Registry → ℕ
count r = length r.connections
