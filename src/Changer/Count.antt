-- ===== src/Changer/Count.antt =====
-- How often a label stands in the elements, and how each operation changes that.
use holo.Prelude.{
  ℕ, ◌+◌, ◌≤◌, ◌≡◌, refl, Bool, true, false, Option, none, some, [], ◌∷◌, if◌then◌else◌, arith,
}
use holo.Prelude.OrdMap.{
  Text, Map, get, insert, keq, text_keys, nat_keys, IsSorted, insert-IsSorted, get-Above,
  Above-trans,
}
use holo.Changer.{
  Changer, Medium, take_medium, take_slot, take_port, take_drive, place_medium, place_slot,
  place_port, place_drive,
}

unfoldable pub holds : Text → Option Text → ℕ
holds l none = 0
holds l (some label) = if keq label l then 1 else 0

unfoldable pub count : Text → Map ℕ (Option Text) → ℕ
count l [] = 0
count l ((a, v) ∷ m) = holds l v + count l m

unfoldable pub carried : Text → Option Medium → ℕ
carried l none = 0
carried l (some m) = holds l (some m.label)

-- How many elements hold a label.
unfoldable pub total : Text → Changer → ℕ
total l c = count l c.slots + count l c.ie_ports + count l c.drives

-- The elements are in the order of their addresses.
abbrev pub IsOrdered : Changer → Type 0
IsOrdered c = IsSorted c.slots × (IsSorted c.ie_ports × IsSorted c.drives)

pub count-insert :
    (l : Text) (k : ℕ) (v w : Option Text) (m : Map ℕ (Option Text))
    → IsSorted m
    → get k m ≡ some w
    → count l (insert k v m) + holds l w ≡ count l m + holds l v
unfolding get insert count
count-insert l k v w [] s h = ground arith
count-insert l k v w ((j, u) ∷ m) s h =
    ground (arith, count-insert l k v w m s.1, get-Above k m, Above-trans k j m)

pub get-count :
    (l : Text) (k : ℕ) (v : Option Text) (m : Map ℕ (Option Text))
    → get k m ≡ some v
    → holds l v ≤ count l m
unfolding get count
get-count l k v [] h = ground arith
get-count l k v ((j, u) ∷ m) h = ground (arith, get-count l k v m)

abbrev pub IsTaken : Changer → Option Medium × Changer → Type 0
IsTaken c (m, d) = IsOrdered d × ((l : Text) → total l d + carried l m ≡ total l c)

none-IsTaken : (c : Changer) → IsOrdered c → IsTaken c (none, c)
unfolding carried
none-IsTaken c o = (o, λ l. omega arith)

module _ (c : Changer) (a : ℕ) (o : IsOrdered c) where
  take_drive-total : (r : Option (Option Text)) → get a c.drives ≡ r → IsTaken c (take_drive c a r)
  unfolding take_drive total carried holds
  take_drive-total none e = none-IsTaken c o
  take_drive-total (some none) e = none-IsTaken c o
  take_drive-total (some (some v)) e = (
    (o.0, (o.1.0, insert-IsSorted a none c.drives o.1.1)),
    λ l. ground (arith, count-insert l a none (some v) c.drives o.1.1 e),
  )

  take_port-total : (r : Option (Option Text)) → get a c.ie_ports ≡ r → IsTaken c (take_port c a r)
  unfolding take_port total carried holds
  take_port-total none e = take_drive-total (get a c.drives) refl
  take_port-total (some none) e = none-IsTaken c o
  take_port-total (some (some v)) e = (
    (o.0, (insert-IsSorted a none c.ie_ports o.1.0, o.1.1)),
    λ l. ground (arith, count-insert l a none (some v) c.ie_ports o.1.0 e),
  )

  take_slot-total : (r : Option (Option Text)) → get a c.slots ≡ r → IsTaken c (take_slot c a r)
  unfolding take_slot total carried holds
  take_slot-total none e = take_port-total (get a c.ie_ports) refl
  take_slot-total (some none) e = none-IsTaken c o
  take_slot-total (some (some v)) e = (
    (insert-IsSorted a none c.slots o.0, o.1),
    λ l. ground (arith, count-insert l a none (some v) c.slots o.0 e),
  )

pub take_medium-total : (c : Changer) (a : ℕ) → IsOrdered c → IsTaken c (take_medium c a)
unfolding take_medium
take_medium-total c a o = take_slot-total c a o (get a c.slots) refl

-- What a placement does, where no element holds the medium's label yet.
abbrev pub IsPlaced : Changer → Medium → Bool × Changer → Type 0
IsPlaced c m (true, d) = IsOrdered d × ((l : Text) → total l d ≡ total l c + carried l (some m))
IsPlaced c m (false, d) = d ≡ c

module _ (c : Changer) (a : ℕ) (m : Medium) (o : IsOrdered c) (absent : total m.label c ≡ 0) where
  place_drive-total :
      (r : Option (Option Text)) → get a c.drives ≡ r → IsPlaced c m (place_drive c a m r)
  unfolding place_drive total carried holds
  place_drive-total none e = refl
  place_drive-total (some (some v)) e = refl
  place_drive-total (some none) e = (
    (o.0, (o.1.0, insert-IsSorted a (some m.label) c.drives o.1.1)),
    λ l. ground (arith, count-insert l a (some m.label) none c.drives o.1.1 e),
  )

  place_port-total :
      (r : Option (Option Text)) → get a c.ie_ports ≡ r → IsPlaced c m (place_port c a m r)
  unfolding place_port total carried holds
  place_port-total none e = place_drive-total (get a c.drives) refl
  place_port-total (some (some v)) e = refl
  place_port-total (some none) e = (
    (o.0, (insert-IsSorted a (some m.label) c.ie_ports o.1.0, o.1.1)),
    λ l. ground (arith, count-insert l a (some m.label) none c.ie_ports o.1.0 e),
  )

  not_in_slot : (v : Text) → get a c.slots ≡ some (some v) → keq v m.label ≡ false
  unfolding total holds
  not_in_slot v e = ground (arith, get-count m.label a (some v) c.slots e, absent)

  place_slot-total :
      (r : Option (Option Text)) → get a c.slots ≡ r → IsPlaced c m (place_slot c a m r)
  unfolding place_slot total carried holds
  place_slot-total none e = place_port-total (get a c.ie_ports) refl
  place_slot-total (some (some v)) e = rw (not_in_slot v e) refl
  place_slot-total (some none) e = (
    (insert-IsSorted a (some m.label) c.slots o.0, o.1),
    λ l. ground (arith, count-insert l a (some m.label) none c.slots o.0 e),
  )

pub place_medium-total :
    (c : Changer) (a : ℕ) (m : Medium)
    → IsOrdered c
    → total m.label c ≡ 0
    → IsPlaced c m (place_medium c a m)
unfolding place_medium
place_medium-total c a m o absent = place_slot-total c a m o absent (get a c.slots) refl
