-- ===== src/Auth/Models.antt =====
-- internal/auth/models.go.
use spark_server.Base.{ℕ, Bytes, List}

pub record User : Type 0 where
  pub id : Bytes
  pub username : Bytes
  pub password_hash : Bytes
  pub scopes : List Bytes
  pub created_at : ℕ
  pub updated_at : ℕ

pub record AccessToken : Type 0 where
  pub token : Bytes
  pub user_id : Bytes
  pub username : Bytes
  pub scopes : List Bytes
  pub expires_at : ℕ
  pub created_at : ℕ
