-- ===== src/Storage/Receipts/Forward.antt =====
-- The delivery cursors only move forward (server/internal/storage/receipt_store.go).
use veritra.Prelude.{
  ℕ, ◌≡◌, ◌⊎◌, refl, sym, ◌∙◌, inl, inr, String, Bool, true, Option, none, some, List, [], ◌∷◌,
  ◌++◌, str_eq, if◌then◌else◌, Bool-cases, Option-cases, arith, &&-parts, eq_iff,
}
use veritra.Prelude.Rows.{find, update, find-append_some, find-Holds}
use veritra.Storage.Receipts.{
  Envelope, Delivery, ReceiptTables, DeliveryAdvance, created_at_of, is_later, is_cursor, moved_to,
  with_deliveries, new_cursor, can_advance, advance_delivery, apply_deliveries,
}

-- The message that the cursor of an account in a conversation points at.
abbrev pub cursor : ReceiptTables → String → String → Option Delivery
cursor t account conversation = find (is_cursor account conversation) t.deliveries

-- One message is another, or has a later time.
abbrev pub IsPast : List Envelope → String → String → Type 0
IsPast envelopes new old =
    (new ≡ old) ⊎ (is_later (created_at_of envelopes new) (created_at_of envelopes old) ≡ true)

-- Every cursor is still there, and points at the message that it did or at a later one.
pub record Forward (t u : ReceiptTables) : Type 0 where
  pub envelopes : u.envelopes ≡ t.envelopes
  pub later :
      (account conversation : String) (d : Delivery)
      → cursor t account conversation ≡ some d
      → (e : Delivery) × (cursor u account conversation ≡ some e)
        × IsPast t.envelopes e.message_id d.message_id

module _ {A : Type 0} (q p : A → Bool) (f : A → A) (keeps : (x : A) → q (f x) ≡ q x) where
  q_if : (x : A) → q (if p x then f x else x) ≡ q x
  q_if x = elim (Bool-cases (p x)) [ inl e ↦ rw (e, keeps x) refl | inr e ↦ rw e refl ]

  -- An update that does not change what a query reads is seen in the row that the query finds.
  pub find_updated :
      (rows : List A) (row : A)
      → find q rows ≡ some row
      → find q (update p f rows) ≡ some (if p row then f row else row)
  unfolding find update
  find_updated [] row e = cc
  find_updated (x ∷ rows) row e = elim (Bool-cases (q x)) [
    | inl k ↦ let same : x ≡ row = ground arith in rw (q_if x, k, same) refl
    | inr k ↦ rw (q_if x, k) (find_updated rows row (ground arith))
  ]

Forward-same : (t : ReceiptTables) → Forward t t
Forward-same t = record { envelopes = refl; later = λ a c d h. (d, h, inl refl) }

is_later_trans :
    (a b c : Option ℕ) → is_later b a ≡ true → is_later c b ≡ true → is_later c a ≡ true
is_later_trans (some a) (some b) (some c) h k = ground arith
is_later_trans a none c h k = cc
is_later_trans a b none h k = cc
is_later_trans none (some b) c h k = cc

IsPast-trans :
    (envelopes : List Envelope) (old mid new : String)
    → IsPast envelopes mid old
    → IsPast envelopes new mid
    → IsPast envelopes new old
IsPast-trans envelopes old mid new (inl e) (inl k) = inl (k ∙ e)
IsPast-trans envelopes old mid new (inl e) (inr k) = inr (rw (sym e) k)
IsPast-trans envelopes old mid new (inr e) (inl k) = inr (rw k e)
IsPast-trans envelopes old mid new (inr e) (inr k) =
    inr (is_later_trans (created_at_of envelopes old) (created_at_of envelopes mid) _ e k)

Forward-trans : (t u v : ReceiptTables) → Forward t u → Forward u v → Forward t v
Forward-trans t u v f g = record {
  envelopes = g.envelopes ∙ f.envelopes;
  later = λ a c d h.
      let (e, found, x) = f.later a c d h in
      let (k, end, y) = g.later a c e found in
      let same : IsPast t.envelopes k.message_id e.message_id = rw (sym f.envelopes) y in
      (k, end, IsPast-trans t.envelopes d.message_id e.message_id k.message_id x same);
}

same_cursor :
    (account conversation a c : String) (rows : List Delivery) (d e : Delivery)
    → find (is_cursor account conversation) rows ≡ some d
    → find (is_cursor a c) rows ≡ some e
    → is_cursor account conversation e ≡ true
    → e ≡ d
same_cursor account conversation a c rows d e found h own =
    let (x, y) =
      &&-parts (str_eq e.account_id account) (str_eq e.conversation_id conversation) own in
    let (z, w) =
      &&-parts (str_eq e.account_id a) (str_eq e.conversation_id c)
        (find-Holds (is_cursor a c) rows e h) in
    let a_same : a ≡ account = sym ((eq_iff _ _).0 z) ∙ (eq_iff _ _).0 x in
    let c_same : c ≡ conversation = sym ((eq_iff _ _).0 w) ∙ (eq_iff _ _).0 y in
    let both : some e ≡ some d = sym h ∙ rw (a_same, c_same) found in cc

moved_to-Forward :
    (account conversation message : String) (t : ReceiptTables) (d : Delivery)
    → cursor t account conversation ≡ some d
    → is_later (created_at_of t.envelopes message) (created_at_of t.envelopes d.message_id) ≡ true
    → Forward t (
        with_deliveries (update (is_cursor account conversation) (moved_to message) t.deliveries) t)
moved_to-Forward account conversation message t d found after = record {
  envelopes = refl;
  later = λ a c e h.
      let seen =
        find_updated (is_cursor a c) (is_cursor account conversation) (moved_to message) (λ x. refl)
          t.deliveries e h in
      elim (Bool-cases (is_cursor account conversation e)) [
        | inl own ↦
            let same = same_cursor account conversation a c t.deliveries d e found h own in
            (moved_to message e, seen ∙ rw own refl, inr (rw same after))
        | inr other ↦ (e, seen ∙ rw other refl, inl refl)
      ];
}

new_cursor-Forward :
    (account conversation message : String) (t : ReceiptTables)
    → Forward t (with_deliveries (t.deliveries ++ (new_cursor account conversation message ∷ [])) t)
new_cursor-Forward account conversation message t = record {
  envelopes = refl;
  later = λ a c e h. (
    e,
    find-append_some (is_cursor a c) t.deliveries (new_cursor account conversation message ∷ []) e
        h,
    inl refl,
  );
}

pub advance_delivery-Forward :
    (account : String) (t : ReceiptTables) (a : DeliveryAdvance)
    → Forward t (advance_delivery account t a).0
unfolding advance_delivery
advance_delivery-Forward account t a = elim (Bool-cases (can_advance account t a)) [
  | inr barred ↦ rw barred (Forward-same t)
  | inl may ↦ elim (Option-cases (cursor t account a.conversation_id)) [
    | inl fresh ↦ rw (may, fresh) (new_cursor-Forward account a.conversation_id a.message_id t)
    | inr (d, found) ↦
        elim (Bool-cases (
          is_later (created_at_of t.envelopes a.message_id)
            (created_at_of t.envelopes d.message_id))) [
              | inl after ↦
                  rw (may, found, after)
                    (moved_to-Forward account a.conversation_id a.message_id t d found after)
              | inr past ↦ rw (may, found, past) (Forward-same t)
            ]
  ]
]

-- Whatever advances are applied, no cursor of any account is lost, and each points at the message
-- that it did before or at one with a later time.
pub apply_deliveries-Forward :
    (account : String) (advances : List DeliveryAdvance) (t : ReceiptTables)
    → Forward t (apply_deliveries account advances t).0
unfolding apply_deliveries
apply_deliveries-Forward account [] t = Forward-same t
apply_deliveries-Forward account (a ∷ advances) t =
    Forward-trans t (advance_delivery account t a).0 _ (advance_delivery-Forward account t a)
      (apply_deliveries-Forward account advances (advance_delivery account t a).0)
