-- ===== src/Changer/ExchangeDone.antt =====
-- The media before and after EXCHANGE MEDIUM: data-plane/src/iscsi/cdb_changer.rs.
use holo.Prelude.{
  ℕ, ◌+◌, ◌≤◌, ◌≡◌, refl, sym, ap, ◌∙◌, Bool, true, false, Option, none, some, arith,
}
use holo.Prelude.OrdMap.{Text, keq_iff, text_keys}
use holo.Prelude.Outcome.{Result, ok, err}
use holo.Wire.{CdbResponse}
use holo.Changer.{Changer, Medium, take_medium, place_medium}
use holo.Changer.Commands.{exchange, place_three, put, then_put}
use holo.Changer.Count.{total, carried, holds, IsOrdered, IsTaken, IsPlaced, take_medium-total}
use holo.Changer.Inventory.{IsInventory, SameMedia, is_placed}

-- No element holds the medium's label.
abbrev IsAbsent : Changer → Option Medium → Type 0
IsAbsent d none = Unit {0}
IsAbsent d (some m) = total m.label d ≡ 0

-- The state has one more medium, if there is one.
abbrev IsMore : Changer → Option Medium → Changer → Type 0
IsMore d o e = IsOrdered e × ((l : Text) → total l e ≡ total l d + carried l o)

placed-IsMore :
    (d : Changer) (a : ℕ) (m : Medium) (p : Bool × Changer)
    → place_medium d a m ≡ p
    → IsPlaced d m p
    → (put a (some m) d).0 ≡ ok tt
    → IsMore d (some m) (put a (some m) d).1
unfolding put
placed-IsMore d a m (true, e) q p h = rw (q) p
placed-IsMore d a m (false, e) q p h = ground arith

put-IsMore :
    (a : ℕ) (o : Option Medium) (d : Changer)
    → IsOrdered d
    → IsAbsent d o
    → (put a o d).0 ≡ ok tt
    → IsMore d o (put a o d).1
unfolding put carried
put-IsMore a none d i n h = (i, λ l. omega arith)
put-IsMore a (some m) d i n h =
    placed-IsMore d a m (place_medium d a m) refl (is_placed d a m i n (place_medium d a m) refl) h

put_result :
    (a : ℕ) (o : Option Medium) (d : Changer) (q : Result CdbResponse (Unit {0}) × Changer)
    → IsOrdered d
    → IsAbsent d o
    → put a o d ≡ q
    → q.0 ≡ ok tt
    → IsMore d o q.1
put_result a o d q i n e h = rw (sym e) (put-IsMore a o d i n (ap (λ z. z.0) e ∙ h))

once-IsAbsent :
    (d : Changer) (o : Option Medium) → ((l : Text) → total l d + carried l o ≤ 1) → IsAbsent d o
unfolding carried holds
once-IsAbsent d none h = tt
once-IsAbsent d (some m) h = ground (arith, h m.label, keq_iff m.label m.label)

-- The state has the media of another, and the two that were still to be placed.
abbrev HasBoth : Changer → Option Medium → Option Medium → Changer → Type 0
HasBoth d m1 m2 e = IsOrdered e × ((l : Text) → total l e ≡ total l d + carried l m1 + carried l m2)

module _ (a b : ℕ) (m1 m2 : Option Medium) (d : Changer) (i : IsOrdered d)
    (once : (l : Text) → total l d + carried l m1 + carried l m2 ≤ 1) where
  last_put :
      (q : Result CdbResponse (Unit {0}) × Changer)
      → put b m1 d ≡ q
      → (then_put a m2 q).0 ≡ ok tt
      → HasBoth d m1 m2 (then_put a m2 q).1
  unfolding then_put
  last_put (err r, e) q h = ground arith
  last_put (ok u, e) q h =
      let first =
        put_result b m1 d (ok u, e) i (once-IsAbsent d m1 (λ l. omega (arith, once l))) q refl in
      let second =
        put_result a m2 e (put a m2 e) first.0
          (once-IsAbsent e m2 (λ l. omega (arith, once l, first.1 l))) refl h in
      (second.0, λ l. omega (arith, first.1 l, second.1 l))

module _ (source destination_1 destination_2 : ℕ) (m : Medium) (m1 m2 : Option Medium) (d : Changer)
    (i : IsOrdered d)
    (once : (l : Text) → total l d + carried l (some m) + carried l m1 + carried l m2 ≤ 1) where
  after_first :
      (p : Bool × Changer)
      → place_medium d destination_1 m ≡ p
      → IsPlaced d m p
      → (place_three source destination_1 destination_2 m m1 m2 d).0 ≡ ok tt
      → IsOrdered (place_three source destination_1 destination_2 m m1 m2 d).1
        × ((l : Text)
            → total l (place_three source destination_1 destination_2 m m1 m2 d).1
              ≡ total l d + carried l (some m) + carried l m1 + carried l m2)
  unfolding place_three
  after_first (false, e) q p h = ground arith
  after_first (true, e) q p h =
      let same : place_three source destination_1 destination_2 m m1 m2 d
          ≡ then_put source m2 (put destination_2 m1 e) =
        rw q in
      let all =
        last_put source destination_2 m1 m2 e p.0 (λ l. omega (arith, once l, p.1 l))
          (put destination_2 m1 e) refl (ap (λ z. z.0) (sym same) ∙ h) in
      rw (same) (all.0, λ l. omega (arith, all.1 l, p.1 l))

module _ (c : Changer) (source destination_1 destination_2 : ℕ) (i : IsInventory c) where
  after_taking :
      (t : Option Medium × Changer)
      → take_medium c source ≡ t
      → IsTaken c t
      → (exchange c source destination_1 destination_2).0 ≡ ok tt
      → SameMedia c (exchange c source destination_1 destination_2).1
  unfolding exchange carried
  after_taking (none, d) e k h = ground arith
  after_taking (some m, d) e k h =
      let second = take_medium d destination_1 in
      let third = take_medium second.1 destination_2 in
      let taken_1 = take_medium-total d destination_1 k.0 in
      let taken_2 = take_medium-total second.1 destination_2 taken_1.0 in
      let absent =
        once-IsAbsent third.1 (some m)
          (λ l. omega (arith, i.1 l, k.1 l, taken_1.1 l, taken_2.1 l)) in
      let same : exchange c source destination_1 destination_2
          ≡ place_three source destination_1 destination_2 m second.0 third.0 third.1 =
        rw e in
      let all =
        after_first source destination_1 destination_2 m second.0 third.0 third.1 taken_2.0
          (λ l. omega (arith, i.1 l, k.1 l, taken_1.1 l, taken_2.1 l))
          (place_medium third.1 destination_1 m) refl
          (is_placed third.1 destination_1 m taken_2.0 absent (place_medium third.1 destination_1 m)
            refl)
          (ap (λ z. z.0) (sym same) ∙ h) in
      rw (same) (all.0, λ l. omega (arith, all.1 l, k.1 l, taken_1.1 l, taken_2.1 l))

-- An exchange that is done keeps the order of the elements and every label's number of elements, if
-- the elements are in order and no label stands twice.
pub exchange-SameMedia :
    (c : Changer) (source destination_1 destination_2 : ℕ)
    → IsInventory c
    → (exchange c source destination_1 destination_2).0 ≡ ok tt
    → SameMedia c (exchange c source destination_1 destination_2).1
exchange-SameMedia c source destination_1 destination_2 i h =
    after_taking c source destination_1 destination_2 i (take_medium c source) refl
      (take_medium-total c source i.0) h
