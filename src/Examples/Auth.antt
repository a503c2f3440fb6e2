-- ===== src/Examples/Auth.antt =====
-- Users, passwords and tokens at concrete inputs.
use spark_server.Base.{◌≡◌, refl, [], ◌∷◌, Bytes, codes, same_bytes, ok, arith}
use spark_server.Auth.Models.{User, AccessToken}
use spark_server.Auth.Password.{hash_with, verify_password, password_sum, verify_password-hash_with}
use spark_server.Auth.Service.{Service, new_user, new_token, authenticate_token}
use spark_server.Auth.Service.Tokens.{IsAuthentic, SameUsers, authenticate_token-IsAuthentic}
use spark_server.Records.Effects.{World, now}
use spark_server.Records.{get_by_id}
use spark_server.Records.Files.{bad_id}
use spark_server.Records.Calls.{Ends}
use spark_server.Examples.Records.{env, world}

abbrev sum_of : Bytes → Bytes
sum_of text = text

verify_password-hash_with_example :
    verify_password sum_of (hash_with sum_of (1 ∷ 200 ∷ []) (112 ∷ 119 ∷ [])) (112 ∷ 120 ∷ [])
    ≡ same_bytes
        (password_sum sum_of (1 ∷ 200 ∷ []) (112 ∷ 120 ∷ []))
        (password_sum sum_of (1 ∷ 200 ∷ []) (112 ∷ 119 ∷ []))
verify_password-hash_with_example =
    verify_password-hash_with sum_of (1 ∷ 200 ∷ []) (112 ∷ 119 ∷ []) (112 ∷ 120 ∷ [])
      (omega arith, (omega arith, tt))
      (omega arith, (omega arith, (omega arith, (omega arith, tt))))

abbrev service : Service
service = record { env = env; token_lifetime = 60; sha256 = sum_of; salt = λ n. ok (1 ∷ []) }

abbrev ann : User
ann = new_user (codes "ann") [] 10

abbrev token : AccessToken
token = new_token ann (codes "t1") 90 60

abbrev signed_in : World
signed_in = record world { users = (codes "ann", ann) ∷ []; tokens = (codes "t1", token) ∷ [] }

authenticated : (authenticate_token service (codes "t1") signed_in).0 ≡ ok (ann, token)
unfolding authenticate_token get_by_id bad_id now
authenticated = refl

authenticate_token-IsAuthentic_example :
    Ends
      (λ (u, t) v. IsAuthentic service (codes "t1") signed_in u t v)
      (SameUsers signed_in)
      (authenticate_token service (codes "t1") signed_in)
authenticate_token-IsAuthentic_example =
    authenticate_token-IsAuthentic service (codes "t1") signed_in
