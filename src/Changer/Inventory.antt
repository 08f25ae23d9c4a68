-- ===== src/Changer/Inventory.antt =====
-- The media before and after MOVE MEDIUM: data-plane/src/iscsi/cdb_changer.rs.
use holo.Prelude.{
  ℕ, ◌+◌, ◌≤◌, ◌≡◌, refl, sym, ◌∙◌, Bool, true, false, Option, none, some, List, arith, Bool-cases,
  inl, inr, ltb, length, ◌==◌,
}
use holo.Prelude.OrdMap.{Text, get, get-insert, keq, keq_iff, text_keys, nat_keys}
use holo.Prelude.Outcome.{Result, ok, err}
use holo.Wire.{CdbResponse}
use holo.Changer.{
  Changer, Medium, take_medium, take_slot, take_port, take_drive, place_medium, place_slot,
  place_port, place_drive,
}
use holo.Changer.Commands.{conclude_move, transfer, move_medium, finish, auto_archive, word}
use holo.Changer.Shared.{Share, inventory_enabled}
use holo.Changer.Count.{
  total, carried, holds, IsOrdered, take_medium-total, place_medium-total, IsPlaced, IsTaken,
}

-- The elements are in order, and no label stands in two of them.
abbrev pub IsInventory : Changer → Type 0
IsInventory c = IsOrdered c × ((l : Text) → total l c ≤ 1)

keq_same : (a : ℕ) → keq a a ≡ true
keq_same a = ground arith

-- An element that gave its medium takes it back.
abbrev pub TakesBack : ℕ → Option Medium × Changer → Type 0
TakesBack a (none, d) = Unit {0}
TakesBack a (some m, d) = (place_medium d a m).0 ≡ true

module _ (c : Changer) (a : ℕ) where
  drive-TakesBack :
      (r : Option (Option Text))
      → get a c.slots ≡ none
      → get a c.ie_ports ≡ none
      → TakesBack a (take_drive c a r)
  unfolding take_drive place_medium place_slot place_port place_drive
  drive-TakesBack none s i = tt
  drive-TakesBack (some none) s i = tt
  drive-TakesBack (some (some v)) s i = rw (s, i, get-insert a a none c.drives, keq_same a)

  port-TakesBack :
      (r : Option (Option Text))
      → get a c.slots ≡ none
      → get a c.ie_ports ≡ r
      → TakesBack a (take_port c a r)
  unfolding take_port place_medium place_slot place_port
  port-TakesBack none s e = drive-TakesBack (get a c.drives) s e
  port-TakesBack (some none) s e = tt
  port-TakesBack (some (some v)) s e = rw (s, get-insert a a none c.ie_ports, keq_same a)

  slot-TakesBack : (r : Option (Option Text)) → get a c.slots ≡ r → TakesBack a (take_slot c a r)
  unfolding take_slot place_medium place_slot
  slot-TakesBack none e = port-TakesBack (get a c.ie_ports) e refl
  slot-TakesBack (some none) e = tt
  slot-TakesBack (some (some v)) e = rw (get-insert a a none c.slots, keq_same a)

takes_back : (c : Changer) (a : ℕ) → TakesBack a (take_medium c a)
unfolding take_medium
takes_back c a = slot-TakesBack c a (get a c.slots) refl

-- The state has the labels of another one.
abbrev pub SameMedia : Changer → Changer → Type 0
SameMedia c d = IsOrdered d × ((l : Text) → total l d ≡ total l c)

absent_once_taken :
    (c d : Changer) (m : Medium)
    → IsInventory c
    → ((l : Text) → total l d + carried l (some m) ≡ total l c)
    → total m.label d ≡ 0
unfolding carried holds
absent_once_taken c d m i t = ground (arith, t m.label, i.1 m.label, keq_iff m.label m.label)

placed_back :
    (c d : Changer) (m : Medium) (p : Bool × Changer)
    → ((l : Text) → total l d + carried l (some m) ≡ total l c)
    → p.0 ≡ true
    → IsPlaced d m p
    → SameMedia c p.1
placed_back c d m (true, e) t b p = (p.0, λ l. p.1 l ∙ t l)
placed_back c d m (false, e) t b p = ground arith

module _ (c : Changer) (a : ℕ) where
  pub is_taken :
      IsOrdered c
      → (t : Option Medium × Changer) → take_medium c a ≡ t
      → IsTaken c t × TakesBack a t
  is_taken o t e = rw (sym e) (take_medium-total c a o, takes_back c a)

  pub is_placed :
      (m : Medium)
      → IsOrdered c
      → total m.label c ≡ 0
      → (p : Bool × Changer) → place_medium c a m ≡ p
      → IsPlaced c m p
  is_placed m o z p e = rw (sym e) (place_medium-total c a m o z)

module _ (c : Changer) (source destination : ℕ) (i : IsInventory c) where
  after_placing :
      (d : Changer) (m : Medium)
      → take_medium c source ≡ (some m, d)
      → (p : Bool × Changer) → place_medium d destination m ≡ p
      → SameMedia c (transfer c source destination).1
  unfolding transfer
  after_placing d m e (done, f) q =
      let (taken, back) = is_taken c source i.0 (some m, d) e in
      let absent = absent_once_taken c d m i taken.1 in
      let returned =
        placed_back c d m (place_medium d source m) taken.1 back
          (place_medium-total d source m taken.0 absent) in
      finished taken done q (is_placed d destination m taken.0 absent (done, f) q) returned
    where
      finished :
          IsTaken c (some m, d)
          → (b : Bool) → place_medium d destination m ≡ (b, f)
          → IsPlaced d m (b, f)
          → SameMedia c (place_medium d source m).1
          → SameMedia c (transfer c source destination).1
      finished t true r p back = rw (e, r) (p.0, λ l. p.1 l ∙ t.1 l)
      finished t false r p back = rw (e, r, p) back

  after_taking :
      (t : Option Medium × Changer)
      → take_medium c source ≡ t
      → SameMedia c (transfer c source destination).1
  unfolding transfer carried
  after_taking (none, d) e =
      let (taken, back) = is_taken c source i.0 (none, d) e in
      rw (e) (taken.0, λ l. ground (arith, taken.1 l))
  after_taking (some m, d) e = after_placing d m e (place_medium d destination m) refl

-- Moving a medium keeps the order of the elements and every label's number of elements, whether the
-- move is done or refused, if the elements are in order and no label stands twice.
transfer-SameMedia :
    (c : Changer) (source destination : ℕ)
    → IsInventory c
    → SameMedia c (transfer c source destination).1
transfer-SameMedia c source destination i =
    after_taking c source destination i (take_medium c source) refl

finish-SameMedia :
    (c d : Changer) (s : Share) (touched : Bool)
    → inventory_enabled s ≡ false
    → SameMedia c d
    → SameMedia c (finish touched d s).1.0
unfolding finish auto_archive total
finish-SameMedia c d s touched n same = rw (n) same

conclude_move-SameMedia :
    (c : Changer) (source destination : ℕ) (s : Share) (t : Result CdbResponse (Unit {0}) × Changer)
    → inventory_enabled s ≡ false
    → SameMedia c t.1
    → SameMedia c (conclude_move source destination s t).1.0
unfolding conclude_move
conclude_move-SameMedia c source destination s (err response, d) n same = same
conclude_move-SameMedia c source destination s (ok u, d) n same = finish-SameMedia c d s _ n same

-- MOVE MEDIUM keeps every label's number of elements on every branch, if the elements are in order,
-- no label stands twice, and the inventory is not shared, so that nothing goes to the vault.
pub move_medium-SameMedia :
    (cdb : List ℕ) (c : Changer) (s : Share)
    → IsInventory c
    → inventory_enabled s ≡ false
    → SameMedia c (move_medium cdb c s).1.0
unfolding move_medium
move_medium-SameMedia cdb c s i n = elim (Bool-cases (ltb (length cdb) 8)) [
  | inl e ↦ rw e (i.0, λ l. refl)
  | inr e ↦ elim (Bool-cases (word cdb 4 == word cdb 6)) [
    | inl f ↦ rw (e, f) (i.0, λ l. refl)
    | inr f ↦ rw (e, f) (conclude_move-SameMedia c _ _ s _ n (transfer-SameMedia c _ _ i))
  ]
]
