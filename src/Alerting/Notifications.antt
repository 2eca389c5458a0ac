-- ===== src/Alerting/Notifications.antt =====
-- internal/server/alerting/notifications.go. The notifiers are the URLs of the webhooks; the items
-- are decoded already, `none` where the text is not JSON of their shape.
use theminidog.Base.{
  ℕ, suc, true, sym, ap, ◌∙◌, ok-injective, Result-cases, inl, inr, ◌≡◌, refl, Bool, ◌||◌, Option,
  none, some, List, [], ◌∷◌, String, is_blank, str_eq, if◌then◌else◌, ltb, leb, Result, ok, err,
  map, All, arith, ◌↔◌,
}

pub record NotificationItem : Type 0 where
  pub kind : String
  pub url : String

pub data NotificationError : Type 0 where
  bad_notifications : NotificationError
  unsupported_type : ℕ → String → NotificationError

unfoldable pub cons_notifier :
    String → Result NotificationError (List String) → Result NotificationError (List String)
cons_notifier u (ok us) = ok (u ∷ us)
cons_notifier u (err e) = err e

unfoldable pub notifiers_from : ℕ → List NotificationItem → Result NotificationError (List String)
unfolding cons_notifier
notifiers_from i [] = ok []
notifiers_from i (item ∷ items) =
    let rest = notifiers_from (suc i) items in
    if str_eq item.kind "webhook"
    then cons_notifier item.url rest
    else err (unsupported_type i item.kind)

unfoldable pub parse_notifications :
    (String → Option (List NotificationItem)) → String → Result NotificationError (List String)
unfolding notifiers_from
parse_notifications decode raw =
    if is_blank raw
    then ok []
    else elim (decode raw) [ none ↦ err bad_notifications | some items ↦ notifiers_from 0 items ]

-- What a webhook answers: nothing, or a status.
pub data WebhookReply : Type 0 where
  no_answer : WebhookReply
  answered : ℕ → WebhookReply

pub data NotifyError : Type 0 where
  not_marshalled not_built transport_error : NotifyError
  bad_status : ℕ → NotifyError

-- `Notify`: one request, with no second attempt. `none` where it is delivered.
unfoldable pub notify : Bool → Bool → WebhookReply → Option NotifyError
notify marshalled built reply =
    if marshalled
    then (if built
        then elim reply [
          | no_answer ↦ some transport_error
          | answered s ↦ if ltb s 200 || leb 300 s then some (bad_status s) else none
        ]
        else some not_built)
    else some not_marshalled

-- The type of each item is "webhook".
abbrev pub AllWebhooks : List NotificationItem → Type 0
AllWebhooks = All (λ item. str_eq item.kind "webhook" ≡ true)

notifiers_of :
    (i : ℕ) (items : List NotificationItem)
    → AllWebhooks items
    → notifiers_from i items ≡ ok (map (λ item. item.url) items)
unfolding notifiers_from cons_notifier
notifiers_of i [] h = refl
notifiers_of i (item ∷ items) h = ground (arith, notifiers_of (suc i) items h.1)

webhooks_of :
    (i : ℕ) (items : List NotificationItem) (us : List String)
    → notifiers_from i items ≡ ok us
    → AllWebhooks items
unfolding notifiers_from cons_notifier
webhooks_of i [] us h = tt
webhooks_of i (item ∷ items) us h = elim (Result-cases (notifiers_from (suc i) items)) [
  | inl (rest, e) ↦ ground (arith, e, webhooks_of (suc i) items rest e)
  | inr (x, e) ↦ absurd (ground (arith, e))
]

-- The items of ALERT_NOTIFICATIONS give notifiers exactly where each of them is a webhook, and
-- then one notifier for each item, in order.
pub notifiers_from-AllWebhooks :
    (i : ℕ) (items : List NotificationItem) (us : List String)
    → (notifiers_from i items ≡ ok us) ↔ (AllWebhooks items × (map (λ item. item.url) items ≡ us))
notifiers_from-AllWebhooks i items us = (
  (λ h.
      let hooks = webhooks_of i items us h in
      (hooks, ok-injective (sym (notifiers_of i items hooks) ∙ h))),
  (λ h. notifiers_of i items h.0 ∙ ap ok h.1),
)
