-- ===== src/Storage/Receipts/Covered.antt =====
-- An advance that applies is in the cursor afterwards (server/internal/storage/receipt_store.go).
use veritra.Prelude.{
  ℕ, ◌≡◌, ◌⊎◌, refl, sym, ◌∙◌, inl, inr, String, true, false, Option, none, some, List, [], ◌∷◌,
  ◌++◌, str_eq, Bool-cases, Option-cases, arith, eq_iff,
}
use veritra.Prelude.Rows.{find, find-append_none, find-Holds}
use veritra.Storage.Receipts.{
  Envelope, Delivery, ReceiptTables, DeliveryAdvance, created_at_of, is_later, is_cursor, moved_to,
  new_cursor, receipts_apply, can_advance, advance_delivery, apply_deliveries,
}
use veritra.Storage.Receipts.Forward.{
  cursor, IsPast, Forward, find_updated, apply_deliveries-Forward,
}

-- The cursor points at the message, or at one that is not earlier.
pub record Covers (t : ReceiptTables) (account : String) (a : DeliveryAdvance) : Type 0 where
  pub row : Delivery
  pub found : cursor t account a.conversation_id ≡ some row
  pub reached :
      (row.message_id ≡ a.message_id)
      ⊎ (is_later
            (created_at_of t.envelopes a.message_id)
            (created_at_of t.envelopes row.message_id)
          ≡ false)

not_earlier :
    (m old new : Option ℕ)
    → is_later m old ≡ false
    → is_later new old ≡ true
    → is_later m new ≡ false
not_earlier none old new h k = refl
not_earlier (some m) (some old) (some new) h k = ground arith
not_earlier (some m) none (some new) h k = cc
not_earlier (some m) old none h k = refl

later_not_earlier : (m new : Option ℕ) → is_later new m ≡ true → is_later m new ≡ false
later_not_earlier (some m) (some new) h = ground arith
later_not_earlier none new h = refl
later_not_earlier (some m) none h = cc

reached_past :
    (envelopes : List Envelope) (message old new : String)
    → (old ≡ message)
      ⊎ (is_later (created_at_of envelopes message) (created_at_of envelopes old) ≡ false)
    → IsPast envelopes new old
    → (new ≡ message)
      ⊎ (is_later (created_at_of envelopes message) (created_at_of envelopes new) ≡ false)
reached_past envelopes message old new (inl e) (inl k) = inl (k ∙ e)
reached_past envelopes message old new (inl e) (inr k) =
    inr (later_not_earlier (created_at_of envelopes message) _ (rw (sym e) k))
reached_past envelopes message old new (inr e) (inl k) = inr (rw k e)
reached_past envelopes message old new (inr e) (inr k) =
    inr (not_earlier (created_at_of envelopes message) (created_at_of envelopes old) _ e k)

Covers-Forward :
    (account : String) (a : DeliveryAdvance) (t u : ReceiptTables)
    → Covers t account a
    → Forward t u
    → Covers u account a
Covers-Forward account a t u c f =
    let (e, found, past) = f.later account a.conversation_id c.row c.found in
    record {
      row = e;
      found = found;
      reached =
          rw f.envelopes
            (reached_past t.envelopes a.message_id c.row.message_id e.message_id c.reached past);
    }

own_row :
    (account conversation message : String)
    → find (is_cursor account conversation) (new_cursor account conversation message ∷ [])
      ≡ some (new_cursor account conversation message)
unfolding find
own_row account conversation message =
    let a : str_eq account account ≡ true = (eq_iff account account).1 refl in
    let b : str_eq conversation conversation ≡ true = (eq_iff conversation conversation).1 refl in
    rw (a, b) refl

advance_delivery-Covers :
    (account : String) (t : ReceiptTables) (a : DeliveryAdvance)
    → can_advance account t a ≡ true
    → Covers (advance_delivery account t a).0 account a
unfolding advance_delivery
advance_delivery-Covers account t a may = elim (Option-cases (cursor t account a.conversation_id)) [
  | inl fresh ↦
      rw (may, fresh)
        record {
          row = new_cursor account a.conversation_id a.message_id;
          found =
              find-append_none (is_cursor account a.conversation_id) t.deliveries _ fresh
              ∙ own_row account a.conversation_id a.message_id;
          reached = inl refl;
        }
  | inr (d, found) ↦
      elim (Bool-cases (
        is_later (created_at_of t.envelopes a.message_id)
          (created_at_of t.envelopes d.message_id))) [
            | inl after ↦
                rw (may, found, after)
                  record {
                    row = moved_to a.message_id d;
                    found =
                        find_updated (is_cursor account a.conversation_id)
                          (is_cursor account a.conversation_id) (moved_to a.message_id) (λ x. refl)
                          t.deliveries d found
                        ∙ rw (find-Holds (is_cursor account a.conversation_id) t.deliveries d found)
                            refl;
                    reached = inl refl;
                  }
            | inr past ↦ rw (may, found, past) record { row = d; found = found; reached = inr past }
          ]
]

-- What can be advanced hangs on none of the cursors.
can_advance-advance_delivery :
    (account : String) (t : ReceiptTables) (b a : DeliveryAdvance)
    → can_advance account (advance_delivery account t b).0 a ≡ can_advance account t a
unfolding advance_delivery can_advance receipts_apply
can_advance-advance_delivery account t b a =
    let may = Bool-cases (can_advance account t b) in
    let row = Option-cases (cursor t account b.conversation_id) in ground arith

-- Of the advances that are applied, each that can be is in the cursor at the end: the cursor points
-- at its message, or at one that is not earlier.
pub apply_deliveries-Covers :
    (account : String) (front : List DeliveryAdvance) (a : DeliveryAdvance)
    (back : List DeliveryAdvance) (t : ReceiptTables)
    → can_advance account t a ≡ true
    → Covers (apply_deliveries account (front ++ a ∷ back) t).0 account a
unfolding apply_deliveries
apply_deliveries-Covers account [] a back t may =
    Covers-Forward account a (advance_delivery account t a).0 _
      (advance_delivery-Covers account t a may)
      (apply_deliveries-Forward account back (advance_delivery account t a).0)
apply_deliveries-Covers account (b ∷ front) a back t may =
    apply_deliveries-Covers account front a back (advance_delivery account t b).0
      (can_advance-advance_delivery account t b a ∙ may)
