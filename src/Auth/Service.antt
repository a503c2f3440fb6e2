-- ===== src/Auth/Service.antt =====
-- internal/auth/service.go.
pub mod Tokens
use spark_server.Base.{
  ℕ, suc, ◌+◌, Bool, true, false, not, List, [], ◌∷◌, Bytes, codes, same_bytes, Option, none, some,
  Result, ok, err, if◌then◌else◌, ltb,
}
use spark_server.Auth.Models.{User, AccessToken}
use spark_server.Auth.Password.{hash_with, verify_password}
use spark_server.Records.Effects.{
  auth, Error, not_found, conflict, invalid_credentials, World, Env, M, ◌>>=◌, ◌>>◌, pure, raise,
  refuse_when, optional, now, fresh_id, called,
}
use spark_server.Records.{users, tokens, create, get_by_id, delete, get_first, get_all}

-- `salt` is what is drawn for a password, or an error.
pub record Service : Type 0 where
  pub env : Env
  pub token_lifetime : ℕ
  pub sha256 : Bytes → Bytes
  pub salt : ℕ → Result Error Bytes

abbrev pub new_user : Bytes → Bytes → ℕ → User
new_user username password_hash time = record {
  id = username;
  username = username;
  password_hash = password_hash;
  scopes = codes "*" ∷ [];
  created_at = time;
  updated_at = time;
}

abbrev pub new_token : User → Bytes → ℕ → ℕ → AccessToken
new_token u token time lifetime = record {
  token = token;
  user_id = u.id;
  username = u.username;
  scopes = u.scopes;
  expires_at = time + lifetime;
  created_at = time;
}

module _ (service : Service) where
  unfoldable pub get_by_username : Bytes → M User
  get_by_username username = get_first service.env users (λ u. same_bytes u.username username)

  abbrev pub draw_salt : M Bytes
  draw_salt w = (service.salt w.calls, called w)

  unfoldable pub hash_password : Bytes → M Bytes
  hash_password password = do salt ← draw_salt; pure (hash_with service.sha256 salt password)

  abbrev pub make_user : Bytes → Bytes → M User
  make_user username password = do
    password_hash ← hash_password password
    time ← now service.env
    let u = new_user username password_hash time
    create service.env users u
    pure u

  abbrev pub unless_there : Bytes → Bytes → Option User → M (Unit {0})
  unless_there username password (some u) = pure tt
  unless_there username password none = do u ← make_user username password; pure tt

  unfoldable pub ensure_default_admin : Bytes → Bytes → M (Unit {0})
  ensure_default_admin username password = do
    o ← optional auth (get_by_username username)
    unless_there username password o

  abbrev pub login_of : Bytes → Option User → M AccessToken
  login_of password none = raise invalid_credentials
  login_of password (some u) = do
    refuse_when (not (verify_password service.sha256 u.password_hash password)) invalid_credentials
    time ← now service.env
    value ← fresh_id service.env
    let t = new_token u value time service.token_lifetime
    create service.env tokens t
    pure t

  unfoldable pub login : Bytes → Bytes → M AccessToken
  login username password = do o ← optional auth (get_by_username username); login_of password o

  abbrev pub create_unless_there : Bytes → Bytes → Option User → M User
  create_unless_there username password (some u) = raise (conflict auth)
  create_unless_there username password none = make_user username password

  unfoldable pub create_user : Bytes → Bytes → M User
  create_user username password = do
    o ← optional auth (get_by_username username)
    create_unless_there username password o

  unfoldable pub authenticate_token : Bytes → M (User × AccessToken)
  authenticate_token value = do
    t ← get_by_id service.env tokens value
    time ← now service.env
    refuse_when (ltb t.expires_at time) (not_found auth)
    u ← get_by_id service.env users t.user_id
    pure (u, t)

  unfoldable pub list_tokens : Bytes → M (List AccessToken)
  list_tokens user_id = get_all service.env tokens (λ t. same_bytes t.user_id user_id)

  unfoldable pub delete_token : Bytes → M (Unit {0})
  delete_token value = delete service.env tokens value
