-- ===== src/Notifications/Messages.antt =====
-- app/ports/notifications.py: the two kinds of mail that confirm a proof, and the message of one.
use spacerocks_coa.Base.{
  ℕ, String, not, ◌&&◌, ◌||◌, leb, Option, none, some, List, [], ◌∷◌, if◌then◌else◌, str_eq, Result,
  ok, err, value_error,
}
use spacerocks_coa.Orders.Keys.{joined, decimal_string}

pub data NotificationKind : Type 0 where
  initial_confirmation final_confirmation : NotificationKind

abbrev pub kind_value : NotificationKind → String
kind_value initial_confirmation = "bitcoin-confirmed-initial"
kind_value final_confirmation = "bitcoin-confirmed-final"

-- `NotificationKind(value)`
unfoldable pub notification_kind : String → Option NotificationKind
notification_kind value =
    if str_eq value "bitcoin-confirmed-initial"
    then some initial_confirmation
    else if str_eq value "bitcoin-confirmed-final"
    then some final_confirmation
    else none

-- `_MINIMUM_CONFIRMATIONS`
abbrev pub minimum_confirmations : NotificationKind → ℕ
minimum_confirmations initial_confirmation = 1
minimum_confirmations final_confirmation = 6

abbrev pub max_int : ℕ
max_int = 2147483647

-- `OutboxMessage`
pub record Message : Type 0 where
  pub message_key : String
  pub order_reference : String
  pub template : String
  pub recipient : String
  pub variables : List (String × String)
  pub proof_version : Option ℕ
  pub confirmation_count : Option ℕ

-- f"{kind.value}-v{proof_version}-{reference}"
abbrev pub message_key_of : NotificationKind → ℕ → String → String
message_key_of kind proof_version reference =
    joined (kind_value kind)
      (joined "-v" (joined (decimal_string proof_version) (joined "-" reference)))

unfoldable pub notification_message : NotificationKind → String → String → ℕ → ℕ → Result Message
notification_message kind order_reference recipient proof_version confirmation_count =
    if not (leb 1 proof_version && leb proof_version max_int)
      || not (leb (minimum_confirmations kind) confirmation_count && leb confirmation_count max_int)
    then err (value_error "notification_milestone_invalid")
    else ok (record {
      message_key = message_key_of kind proof_version order_reference;
      order_reference = order_reference;
      template = kind_value kind;
      recipient = recipient;
      variables = ("order_reference", order_reference) ∷ [];
      proof_version = some proof_version;
      confirmation_count = some confirmation_count;
    })
