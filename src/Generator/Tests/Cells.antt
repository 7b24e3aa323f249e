-- ===== src/Generator/Tests/Cells.antt =====
-- A table in memory, as an instance of the interface of the claim store.
use portscanner.Prelude.{
  ◌≡◌, refl, ◌≢◌, inl, Bool, true, false, Option, none, some, if◌then◌else◌, Bool-cases, inr, sym,
}
use portscanner.Prelude.Text.{Text, codes, text_eq, text_eq_iff, text_eq_refl}
use portscanner.Prelude.Result.{Result, ok, err, ok_inj}
use portscanner.Generator.Error.{Error, remote}
use portscanner.Generator.Claims.Item.{Item, ClaimTable}
use portscanner.Generator.Claims.Moves.{Moves, here, Written, IsTable}

abbrev pub CellMap : Type 0
CellMap = Text → Option Item

abbrev pub set : Text → Item → CellMap → CellMap
set key i w k = if text_eq k key then some i else w k

abbrev condition_failed : Error
condition_failed = remote (some (codes "ConditionalCheckFailedException"))

abbrev put_into : Text → Item → CellMap → Option Item → Result Error (Unit {0}) × CellMap
put_into key i w none = (ok tt, set key i w)
put_into key i w (some j) = (err condition_failed, w)

abbrev update_if : Text → Item → CellMap → Bool → Result Error (Unit {0}) × CellMap
update_if key i w true = (ok tt, set key i w)
update_if key i w false = (err condition_failed, w)

abbrev update_from :
    Text → (Item → Bool) → (Item → Item) → CellMap → Option Item → Result Error (Unit {0}) × CellMap
update_from key test change w none = (err condition_failed, w)
update_from key test change w (some i) = update_if key (change i) w (test i)

abbrev pub cells : ClaimTable CellMap
cells = record {
  item = λ w k. w k;
  get_item = λ key w. (ok (w key), w);
  put_item = λ key i w. put_into key i w (w key);
  update_item = λ key test change w. update_from key test change w (w key);
}

set-other : (key k : Text) (i : Item) (w : CellMap) → k ≢ key → set key i w k ≡ w k
set-other key k i w h = elim (Bool-cases (text_eq k key)) [
  | inl e ↦ absurd (h ((text_eq_iff k key).0 e))
  | inr e ↦ rw e refl
]

set-same : (key : Text) (i : Item) (w : CellMap) → set key i w key ≡ some i
set-same key i w = rw (text_eq_refl key) refl

Moves-refl : {a b : Option Item} → b ≡ a → Moves a b
Moves-refl e = rw e here

put-others :
    (key k : Text) (i : Item) (w : CellMap) (o : Option Item)
    → k ≢ key
    → Moves (w k) ((put_into key i w o).1 k)
put-others key k i w none h = Moves-refl (set-other key k i w h)
put-others key k i w (some j) h = here

put-done :
    (key : Text) (i : Item) (w : CellMap) (o : Option Item)
    → w key ≡ o
    → (put_into key i w o).0 ≡ ok tt
    → Moves (w key) none × ((put_into key i w o).1 key ≡ some i)
put-done key i w none e h = (Moves-refl (sym e), set-same key i w)
put-done key i w (some j) e h = absurd (cc)

put-failed :
    (key : Text) (i : Item) (w : CellMap) (o : Option Item) (e : Error)
    → (put_into key i w o).0 ≡ err e
    → Moves (w key) ((put_into key i w o).1 key)
put-failed key i w none e h = absurd (cc)
put-failed key i w (some j) e h = here

update-others :
    (key k : Text) (test : Item → Bool) (change : Item → Item) (w : CellMap) (o : Option Item)
    → k ≢ key
    → Moves (w k) ((update_from key test change w o).1 k)
update-others key k test change w none h = here
update-others key k test change w (some i) h = elim (Bool-cases (test i)) [
  | inl e ↦ rw e (Moves-refl (set-other key k (change i) w h))
  | inr e ↦ rw e here
]

update-done :
    (key : Text) (test : Item → Bool) (change : Item → Item) (w : CellMap) (o : Option Item)
    → w key ≡ o
    → (update_from key test change w o).0 ≡ ok tt
    → Written cells (w key) ((update_from key test change w o).1 key) test change
update-done key test change w none e h = absurd (cc)
update-done key test change w (some i) e h = elim (Bool-cases (test i)) [
  | inl p ↦ record {
    found = i;
    reached = Moves-refl (sym e);
    passed = p;
    written = rw p (set-same key (change i) w);
  }
  | inr p ↦ absurd (cc)
]

update-failed :
    (key : Text) (test : Item → Bool) (change : Item → Item) (w : CellMap) (o : Option Item)
    (e : Error)
    → (update_from key test change w o).0 ≡ err e
    → Moves (w key) ((update_from key test change w o).1 key)
update-failed key test change w none e h = here
update-failed key test change w (some i) e h = elim (Bool-cases (test i)) [
  | inl p ↦ absurd (cc)
  | inr p ↦ rw p here
]

pub cells-IsTable : IsTable cells
cells-IsTable = record {
  get_moves = λ key k w. here;
  get_reads = λ key w o e. ok_inj e;
  put_others = λ key i k w h. put-others key k i w (w key) h;
  put_done = λ key i w h. put-done key i w (w key) refl h;
  put_failed = λ key i w e h. inl (put-failed key i w (w key) e h);
  update_others = λ key test change k w h. update-others key k test change w (w key) h;
  update_done = λ key test change w h. update-done key test change w (w key) refl h;
  update_failed = λ key test change w e h. inl (update-failed key test change w (w key) e h);
}
