-- ===== src/Webhooks/Attempted.antt =====
-- What the attempts of a delivery leave behind, one after another.
use spark_server.Base.{
  ℕ, ◌≡◌, refl, ap, ◌∙◌, ◌⊎◌, inl, inr, true, false, ◌&&◌, List, [], ◌∷◌, ◌++◌, append_assoc, Bytes,
  Option, none, some, if◌then◌else◌, Bool-cases, All,
}
use spark_server.Events.Models.{Event}
use spark_server.Events.Broker.Streams.{IsSublist, keeps, leaves}
use spark_server.Webhooks.Models.{Webhook}
use spark_server.Webhooks.Service.{Service, joined}
use spark_server.Webhooks.Delivery.{
  Attempt, unbuilt, requests, attempted, attempted_ids, logged, waits_not, due_ids, SameRequests,
  text_of, IsAttempt, Tried,
}
use spark_server.Records.Files.{records}
use spark_server.Records.Effects.{World}

logged-append :
    (a : Attempt) (more : List Attempt) → logged (a ∷ []) ++ logged more ≡ logged (a ∷ more)
logged-append (unbuilt hook text) more = refl
logged-append (requests call hook request) more = refl

abbrev or_more : Option Bytes → List Bytes → List Bytes
or_more none rest = rest
or_more (some text) rest = text ∷ rest

joined-or_more : (o : Option Bytes) (rest : List Bytes) → joined o rest ≡ or_more o rest
joined-or_more none rest = refl
joined-or_more (some text) rest = refl

module _ (service : Service) where
  -- The texts of the attempts that failed.
  abbrev pub texts_of : List Attempt → List Bytes
  texts_of [] = []
  texts_of (a ∷ more) = or_more (text_of service a) (texts_of more)

  -- The webhooks that a delivery goes through.
  abbrev pub hooks : World → List Webhook
  hooks w = if service.has_webhooks && service.has_client then records w.webhooks else []

  module _ (early late : ℕ) (e : Event) where
    -- Each webhook that is for the event and due at the early time is attempted, and only those are
    -- that are for the event and due at the late time, each once and in their order; what is sent is
    -- what is attempted and could be made, and the texts are those of the attempts that failed.
    pub record AreAttempted (all : List Webhook) (w : World) (texts : List Bytes) (v : World)
        : Type 0 where
      pub attempts : List Attempt
      pub log : v.requests ≡ w.requests ++ logged attempts
      pub due : IsSublist (due_ids early e all) (attempted_ids attempts)
      pub only : IsSublist (attempted_ids attempts) (due_ids late e all)
      pub true_to : All (IsAttempt service) attempts
      pub failures : texts ≡ texts_of attempts

    -- One attempt more, or none.
    abbrev pub OneMore : Webhook → World → Option Bytes → World → Type 0
    OneMore hook w failure v =
        ((waits_not early e hook ≡ false) × (failure ≡ none) × SameRequests w v)
        ⊎ ((waits_not late e hook ≡ true) × Tried service hook w failure v)

    pub one_more :
        (hook : Webhook) (more : List Webhook) (w v u : World) (failure : Option Bytes)
        (rest : List Bytes)
        → OneMore hook w failure v
        → AreAttempted more v rest u
        → AreAttempted (hook ∷ more) w (joined failure rest) u
    one_more hook more w v u failure rest (inl (waits, ok_so_far, same)) s = record {
      attempts = s.attempts;
      log = s.log ∙ ap (λ r. r ++ logged s.attempts) same;
      due = rw waits s.due;
      only = elim (Bool-cases (waits_not late e hook)) [
        | inl ready ↦
            rw ready (leaves hook.id (attempted_ids s.attempts) (due_ids late e more) s.only)
        | inr other ↦ rw other s.only
      ];
      true_to = s.true_to;
      failures = rw ok_so_far s.failures;
    }
    one_more hook more w v u failure rest (inr (ready, tried)) s =
        let a = tried.attempt in
        record {
          attempts = a ∷ s.attempts;
          log =
              s.log
              ∙ ap (λ r. r ++ logged s.attempts) tried.log
              ∙ append_assoc w.requests (logged (a ∷ [])) (logged s.attempts)
              ∙ ap (λ r. w.requests ++ r) (logged-append a s.attempts);
          due = elim (Bool-cases (waits_not early e hook)) [
            | inl now_due ↦
                rw (now_due, tried.named)
                  (keeps hook.id (due_ids early e more) (attempted_ids s.attempts) s.due)
            | inr other ↦
                rw other
                  (leaves (attempted a) (due_ids early e more) (attempted_ids s.attempts) s.due)
          ];
          only =
              rw (ready, tried.named)
                (keeps hook.id (attempted_ids s.attempts) (due_ids late e more) s.only);
          true_to = (tried.true_to, s.true_to);
          failures = joined-or_more failure rest ∙ rw (tried.text, s.failures) refl;
        }
