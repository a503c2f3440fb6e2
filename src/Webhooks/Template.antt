-- ===== src/Webhooks/Template.antt =====
-- internal/webhooks/service.go: which events a webhook is for, and what it sends.
use spark_server.Base.{
  ℕ, zero, suc, ◌-◌, Bool, false, ◌||◌, List, [], ◌∷◌, ◌++◌, Bytes, codes, same_bytes, Option, none,
  some, length, if◌then◌else◌, ◌==◌,
}
use spark_server.Events.Models.{Event}
use spark_server.Events.Broker.{has_prefix}
use spark_server.Webhooks.Models.{Webhook}

-- `strings.CutSuffix(text, "*")`.
abbrev pub cons_cut : ℕ → Option Bytes → Option Bytes
cons_cut c none = none
cons_cut c (some cs) = some (c ∷ cs)

abbrev pub cut_star : Bytes → Option Bytes
cut_star [] = none
cut_star (c ∷ []) = if c == 0x2a then some [] else none
cut_star (c ∷ d ∷ ds) = cons_cut c (cut_star (d ∷ ds))

abbrev pub begins : Bytes → Option Bytes → Bool
begins name none = false
begins name (some prefix) = has_prefix name prefix

unfoldable pub is_for : Webhook → Event → Bool
is_for hook e =
    (same_bytes hook.event_name (codes "*") || same_bytes hook.event_name e.name)
    || begins e.name (cut_star hook.event_name)

-- `strings.ReplaceAll` of a text that is not empty; `skip` bytes belong to what has been replaced.
abbrev pub replace_from : Bytes → Bytes → ℕ → Bytes → Bytes
replace_from old new skip [] = []
replace_from old new (suc skip) (c ∷ cs) = replace_from old new skip cs
replace_from old new zero (c ∷ cs) =
    let replaced = new ++ replace_from old new (length old - 1) cs in
    let kept = c ∷ replace_from old new zero cs in
    if has_prefix (c ∷ cs) old then replaced else kept

abbrev pub replace_all : Bytes → Bytes → Bytes → Bytes
replace_all old new text = replace_from old new zero text

abbrev pub replace_each : List (Bytes × Bytes) → Bytes → Bytes
replace_each [] text = text
replace_each ((old, new) ∷ more) text = replace_each more (replace_all old new text)

-- `arranged` is the order in which Go goes through a map, which may differ from run to run.
unfoldable pub expand_template :
    (List (Bytes × Bytes) → List (Bytes × Bytes)) → (ℕ → Bytes) → Bytes → Event → Bytes
expand_template arranged format_time template e =
    replace_each
      (arranged (
        (codes "{{event}}", e.name)
        ∷ (codes "{{name}}", e.name)
        ∷ (codes "{{data}}", e.data_text)
        ∷ (codes "{{coreid}}", e.device_id)
        ∷ (codes "{{device_id}}", e.device_id)
        ∷ (codes "{{product_id}}", e.product_id)
        ∷ (codes "{{published_at}}", format_time e.published)
        ∷ []))
      template
