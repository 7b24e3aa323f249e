-- ===== src/Inventory/Tests/Rows.antt =====
-- A table in memory, as an instance of the interface of the state store.
use portscanner.Prelude.{
  ◌≡◌, refl, Bool, true, false, Option, some, if◌then◌else◌, Bool-cases, inl, inr, [], ◌∷◌,
}
use portscanner.Prelude.Text.{Text, codes, text_eq, text_eq_iff, text_eq_refl}
use portscanner.Prelude.Result.{Result, ok, err}
use portscanner.Inventory.Error.{StateError, client}
use portscanner.Inventory.Store.{
  StateItem, Condition, Transaction, put_both, put_state, put_checked, StateTable,
}
use portscanner.Inventory.Store.Moves.{
  here, holds_of, Effect, nothing, wrote, IsStateTable, written_key,
}

abbrev pub RowMap : Type 0
RowMap = Text → Option StateItem

abbrev pub set : Text → StateItem → RowMap → RowMap
set key i w k = if text_eq k key then some i else w k

abbrev canceled : StateError
canceled =
    client (codes "TransactionCanceledException")
      (some (some (codes "ConditionalCheckFailed") ∷ []))

abbrev write_if : Bool → Text → StateItem → RowMap → Result StateError (Unit {0}) × RowMap
write_if true key i w = (ok tt, set key i w)
write_if false key i w = (err canceled, w)

unfoldable pub write_row : Transaction → RowMap → Result StateError (Unit {0}) × RowMap
write_row (put_both key c i o) w = write_if (holds_of c (w key)) key i w
write_row (put_state key c i) w = write_if (holds_of c (w key)) key i w
write_row (put_checked key g o) w = (ok tt, w)

abbrev pub rows : StateTable RowMap
rows = record {
  state = λ w k. w k;
  get_item = λ key w. (ok (w key), w);
  transact = write_row;
  put_signal = λ key expires now w. (ok tt, w);
  delete_signal = λ key w. (ok tt, w);
}

write_if-Effect :
    (x : Transaction) (b : Bool) (key k : Text) (c : Condition) (i : StateItem) (w : RowMap)
    → written_key x ≡ some (key, c, i)
    → holds_of c (w key) ≡ b
    → Effect k (w k) x ((write_if b key i w).1 k)
write_if-Effect x false key k c i w e h = nothing x here
write_if-Effect x true key k c i w e h = elim (Bool-cases (text_eq k key)) [
  | inr other ↦ rw other (nothing x here)
  | inl same ↦
      let k_is_key : k ≡ key = (text_eq_iff k key).0 same in
      rw k_is_key (rw (text_eq_refl key) (wrote x c i e here h))
]

write_row-Effect :
    (x : Transaction) (k : Text) (w : RowMap) → Effect k (w k) x ((write_row x w).1 k)
unfolding write_row
write_row-Effect (put_both key c i o) k w = write_if-Effect _ _ key k c i w refl refl
write_row-Effect (put_state key c i) k w = write_if-Effect _ _ key k c i w refl refl
write_row-Effect (put_checked key g o) k w = nothing _ here

sub_key :
    {k key : Text} {d c : Condition} {j i : StateItem}
    → ◌≡◌ {A = Option (Text × Condition × StateItem)} (some (k, d, j)) (some (key, c, i))
    → key ≡ k
sub_key e = cc

sub_item :
    {k key : Text} {d c : Condition} {j i : StateItem}
    → ◌≡◌ {A = Option (Text × Condition × StateItem)} (some (k, d, j)) (some (key, c, i))
    → i ≡ j
sub_item e = cc

write_if-done :
    (b : Bool) (key : Text) (i : StateItem) (w : RowMap)
    → (write_if b key i w).0 ≡ ok tt
    → (write_if b key i w).1 key ≡ some i
write_if-done false key i w h = absurd (cc)
write_if-done true key i w h = rw (text_eq_refl key) refl

write_row-done :
    (x : Transaction) (key : Text) (c : Condition) (i : StateItem) (w : RowMap)
    → written_key x ≡ some (key, c, i)
    → (write_row x w).0 ≡ ok tt
    → (write_row x w).1 key ≡ some i
unfolding write_row
write_row-done (put_both k d j o) key c i w e h =
    rw (sub_key e, sub_item e) (write_if-done (holds_of d (w k)) k j w h)
write_row-done (put_state k d j) key c i w e h =
    rw (sub_key e, sub_item e) (write_if-done (holds_of d (w k)) k j w h)
write_row-done (put_checked k g o) key c i w e h = absurd (cc)

pub rows-IsStateTable : IsStateTable rows
rows-IsStateTable = record {
  get_moves = λ key k w. here;
  transact_moves = λ x k w. write_row-Effect x k w;
  signal_moves = λ key expires now k w. here;
  delete_moves = λ key k w. here;
  transact_done = write_row-done;
}
