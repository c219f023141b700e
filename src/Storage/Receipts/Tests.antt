-- ===== src/Storage/Receipts/Tests.antt =====
-- Two messages of a group, delivered out of order.
use veritra.Prelude.{◌≡◌, refl, true, [], ◌∷◌, ◌++◌}
use veritra.Prelude.Rows.{any, find, count, update}
use veritra.Storage.Receipts.{
  ReceiptTables, DeliveryAdvance, receipts_apply, can_advance, advance_delivery, apply_deliveries,
}
use veritra.Storage.Receipts.Forward.{Forward, apply_deliveries-Forward}
use veritra.Storage.Receipts.Covered.{Covers, apply_deliveries-Covers}

abbrev tables : ReceiptTables
tables = record {
  conversations = record { id = "g"; kind = "group" } ∷ [];
  memberships = record { conversation_id = "g"; account_id = "ann"; role = "member" } ∷ [];
  envelopes =
      record { id = "m1"; conversation_id = "g"; created_at = 10 }
      ∷ record { id = "m2"; conversation_id = "g"; created_at = 20 }
      ∷ [];
  deliveries = [];
}

abbrev first : DeliveryAdvance
first = record { conversation_id = "g"; message_id = "m1"; created_at = 10 }

abbrev second : DeliveryAdvance
second = record { conversation_id = "g"; message_id = "m2"; created_at = 20 }

first_can_advance : can_advance "ann" tables first ≡ true
unfolding can_advance receipts_apply any count
first_can_advance = refl

only_second_moves : (apply_deliveries "ann" (second ∷ first ∷ []) tables).1 ≡ second ∷ []
unfolding apply_deliveries advance_delivery can_advance receipts_apply any count find update
only_second_moves = refl

apply_deliveries-Forward_example :
    Forward tables (apply_deliveries "ann" (second ∷ first ∷ []) tables).0
apply_deliveries-Forward_example = apply_deliveries-Forward "ann" (second ∷ first ∷ []) tables

apply_deliveries-Covers_example :
    Covers (apply_deliveries "ann" ((second ∷ []) ++ first ∷ []) tables).0 "ann" first
apply_deliveries-Covers_example =
    apply_deliveries-Covers "ann" (second ∷ []) first [] tables first_can_advance
