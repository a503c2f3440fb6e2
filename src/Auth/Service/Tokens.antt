-- ===== src/Auth/Service/Tokens.antt =====
-- What an access token stands for.
use spark_server.Base.{
  suc, ◌≤◌, ◌≡◌, refl, sym, ap, ◌∙◌, Bool, true, false, Bytes, some, ltb, ltb→le,
}
use spark_server.Base.Maps.{lookup}
use spark_server.Auth.Models.{User, AccessToken}
use spark_server.Auth.Service.{Service, authenticate_token}
use spark_server.Records.Effects.{World, now, called, refuse_when, not_found, auth}
use spark_server.Records.{users, tokens, get_by_id}
use spark_server.Records.Calls.{Ends, Ends-continue, get_by_id-Ends}

-- Users and tokens are as they were.
abbrev pub SameUsers : World → World → Type 0
SameUsers w v = (v.users ≡ w.users) × (v.tokens ≡ w.tokens)

-- The token is stored under the value that was presented, has not expired at the time that the clock
-- gives once the token has been read (two calls after the call began), and the user is the one that it
-- is for.
pub record IsAuthentic (service : Service) (value : Bytes) (w : World) (u : User) (t : AccessToken)
    (v : World) : Type 0 where
  pub token_there : lookup value w.tokens ≡ some t
  pub user_there : lookup t.user_id w.users ≡ some u
  pub in_time : service.env.clock (suc (suc w.calls)) ≤ t.expires_at
  pub same : SameUsers w v

-- Who is authenticated by a token value has a stored token under that value, whose time of expiry is
-- not before the time that the clock gives right after the token was read, and is the stored user of
-- that token. No user or token changes, also where the call fails.
pub authenticate_token-IsAuthentic :
    (service : Service) (value : Bytes) (w : World)
    → Ends
        (λ (u, t) v. IsAuthentic service value w u t v)
        (SameUsers w)
        (authenticate_token service value w)
unfolding authenticate_token now
authenticate_token-IsAuthentic service value w =
    let Q = SameUsers w in
    let T = λ (ut : User × AccessToken) (v : World). IsAuthentic service value w ut.0 ut.1 v in
    let found = λ (t : AccessToken) (v : World).
      (lookup value w.tokens ≡ some t) × Q v × (v.calls ≡ suc (suc w.calls)) in
    Ends-continue found T Q (get_by_id service.env tokens value w) _
      (get_by_id-Ends service.env tokens found Q value w (refl, refl) (refl, refl)
        (λ t e. (e, (refl, refl), refl)))
      (λ t v (there, q, after).
        let expired = ltb t.expires_at (service.env.clock v.calls) in
        Ends-continue (λ _ u. (expired ≡ false) × Q u) T Q
          (refuse_when expired (not_found auth) (called v)) _
          (refused expired (λ u. Q u) (called v) q)
          (λ _ u (fresh, q').
            let who = λ (p : User) (x : World). (lookup t.user_id w.users ≡ some p) × Q x in
            Ends-continue who T Q (get_by_id service.env users t.user_id u) _
              (get_by_id-Ends service.env users who Q t.user_id u q' q'
                (λ p e. (ap (lookup t.user_id) (sym q'.0) ∙ e, q')))
              (λ p x (user_there, q''). record {
                token_there = there;
                user_there = user_there;
                in_time = rw (sym after) (ltb→le t.expires_at (service.env.clock v.calls) fresh);
                same = q'';
              })))
  where
    refused :
        (test : Bool) (Q : World → Type 0) (v : World)
        → Q v
        → Ends (λ _ u. (test ≡ false) × Q u) Q (refuse_when test (not_found auth) v)
    refused true Q v q = q
    refused false Q v q = (refl, q)
