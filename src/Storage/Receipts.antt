-- ===== src/Storage/Receipts.antt =====
-- Delivery cursors (server/internal/storage/receipt_store.go): how far the messages of a conversation
-- have reached an account.
use veritra.Prelude.{
  ℕ, String, Bool, true, false, not, ◌&&◌, ◌||◌, Option, none, some, List, [], ◌∷◌, ◌++◌, ltb, leb,
  str_eq, if◌then◌else◌,
}
use veritra.Prelude.Rows.{any, find, select, count, update}
use veritra.Storage.Tables.{Membership}
pub mod Forward
mod Tests
pub mod Covered

pub record Conversation : Type 0 where
  pub id : String
  pub kind : String

pub record Envelope : Type 0 where
  pub id : String
  pub conversation_id : String
  pub created_at : ℕ

-- A row of delivery_receipts.
pub record Delivery : Type 0 where
  pub account_id : String
  pub conversation_id : String
  pub message_id : String

pub record ReceiptTables : Type 0 where
  pub conversations : List Conversation
  pub memberships : List Membership
  pub envelopes : List Envelope
  pub deliveries : List Delivery

pub record DeliveryAdvance : Type 0 where
  pub conversation_id : String
  pub message_id : String
  pub created_at : ℕ

abbrev pub receipt_max_members : ℕ
receipt_max_members = 20

-- receiptsApplyTo, as ReceiptsApply asks it.
unfoldable pub receipts_apply : ReceiptTables → String → Bool
receipts_apply t conversation =
    any (λ c. str_eq c.id conversation && (str_eq c.kind "dm" || str_eq c.kind "group"))
      t.conversations
    && leb (count (λ m. str_eq m.conversation_id conversation) t.memberships) receipt_max_members

-- SELECT created_at FROM message_envelopes WHERE id = message
abbrev pub created_at_of : List Envelope → String → Option ℕ
created_at_of envelopes message = elim (find (λ e. str_eq e.id message) envelopes) [
  | none ↦ none
  | some e ↦ some e.created_at
]

-- A comparison with a missing value is not true.
abbrev pub is_later : Option ℕ → Option ℕ → Bool
is_later (some a) (some b) = ltb b a
is_later (some a) none = false
is_later none b = false

-- The primary key of the row.
abbrev pub is_cursor : String → String → Delivery → Bool
is_cursor account conversation d =
    str_eq d.account_id account && str_eq d.conversation_id conversation

abbrev pub moved_to : String → Delivery → Delivery
moved_to message d = record {
  account_id = d.account_id;
  conversation_id = d.conversation_id;
  message_id = message;
}

abbrev pub with_deliveries : List Delivery → ReceiptTables → ReceiptTables
with_deliveries deliveries t = record {
  conversations = t.conversations;
  memberships = t.memberships;
  envelopes = t.envelopes;
  deliveries = deliveries;
}

abbrev pub new_cursor : String → String → String → Delivery
new_cursor account conversation message = record {
  account_id = account;
  conversation_id = conversation;
  message_id = message;
}

-- The WHERE of the SELECT that feeds the INSERT.
unfoldable pub can_advance : String → ReceiptTables → DeliveryAdvance → Bool
can_advance account t a =
    any (λ e. str_eq e.id a.message_id && str_eq e.conversation_id a.conversation_id) t.envelopes
    && any (λ m. str_eq m.conversation_id a.conversation_id && str_eq m.account_id account)
        t.memberships
    && receipts_apply t a.conversation_id

-- The INSERT ... ON CONFLICT of one advance, and whether it changed a row.
unfoldable pub advance_delivery : String → ReceiptTables → DeliveryAdvance → ReceiptTables × Bool
advance_delivery account t a =
    if not (can_advance account t a)
    then (t, false)
    else elim (find (is_cursor account a.conversation_id) t.deliveries) [
      | none ↦ (
        with_deliveries (t.deliveries ++ (new_cursor account a.conversation_id a.message_id ∷ []))
            t,
        true,
      )
      | some d ↦
          if is_later (created_at_of t.envelopes a.message_id)
            (created_at_of t.envelopes d.message_id)
          then (
            with_deliveries
                (update (is_cursor account a.conversation_id) (moved_to a.message_id) t.deliveries)
                t,
            true,
          )
          else (t, false)
    ]

-- The loop, with the advances that moved a cursor.
unfoldable pub apply_deliveries :
    String → List DeliveryAdvance → ReceiptTables → ReceiptTables × List DeliveryAdvance
apply_deliveries account [] t = (t, [])
apply_deliveries account (a ∷ advances) t =
    let (u, moves) = advance_delivery account t a in
    let (end, moved) = apply_deliveries account advances u in
    (end, if moves then a ∷ moved else moved)
