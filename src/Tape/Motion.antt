-- ===== src/Tape/Motion.antt =====
-- The positions that the motions reach: data-plane/src/scsi_tape/command_chain.rs.
use Prim.Native.Nat.{zero, suc}
use holo.Prelude.{
  saturating_add, ℕ, ◌≤◌, ◌≡◌, ltb, Bool, true, false, Option, none, some, List, [], ◌∷◌, ◌++◌,
  find, retain, All, arith,
}
use holo.Prelude.OrdMap.{nat_keys}
use holo.Prelude.Outcome.{Result, ok, err, and_then, ensure, ok_or, ◌>>=◌}
use holo.Scsi.Error.{TapeError}
use holo.Tape.{
  TapeState, SpaceBranch, blocks, filemarks, end_of_data, ℤ, pos, negsuc, next_point,
  previous_point, insert_point, sorted_points, minimum, position_after_filemark, repeat,
  space_blocks, space_filemarks, space_end_of_data, space_target, space, forward_filemark,
  backward_filemark,
}

-- The tape stands on its recorded part, and so does all that is recorded.
abbrev pub IsTape : TapeState → Type 0
IsTape s =
    (s.current_position ≤ s.eod_position)
    × (All (λ p. p ≤ s.eod_position) s.filemarks × All (λ p. p ≤ s.eod_position) s.block_starts)

-- An option's or a result's number is at most a bound.
abbrev IsWithin : ℕ → Option ℕ → Type 0
IsWithin bound none = Unit {0}
IsWithin bound (some p) = p ≤ bound

abbrev EndsWithin : ℕ → Result TapeError ℕ → Type 0
EndsWithin bound (err e) = Unit {0}
EndsWithin bound (ok p) = p ≤ bound

find-IsWithin :
    (bound : ℕ) (test : ℕ → Bool) (points : List ℕ)
    → All (λ p. p ≤ bound) points
    → IsWithin bound (find test points)
unfolding find
find-IsWithin bound test [] h = tt
find-IsWithin bound test (p ∷ points) h = ground (arith, find-IsWithin bound test points h.1)

previous_point-IsWithin :
    (bound current : ℕ) (points : List ℕ)
    → All (λ p. p ≤ bound) points
    → IsWithin bound (previous_point points current)
unfolding previous_point
previous_point-IsWithin bound current [] h = tt
previous_point-IsWithin bound current (p ∷ points) h =
    ground (arith, previous_point-IsWithin bound current points h.1)

insert_point-All :
    (bound x : ℕ) (points : List ℕ)
    → x ≤ bound
    → All (λ p. p ≤ bound) points
    → All (λ p. p ≤ bound) (insert_point x points)
unfolding insert_point
insert_point-All bound x [] h a = (h, tt)
insert_point-All bound x (y ∷ ys) h a = ground (arith, insert_point-All bound x ys h a.1)

sorted_points-All :
    (bound : ℕ) (points : List ℕ)
    → All (λ p. p ≤ bound) points
    → All (λ p. p ≤ bound) (sorted_points points)
unfolding sorted_points
sorted_points-All bound [] a = tt
sorted_points-All bound (x ∷ xs) a =
    insert_point-All bound x (sorted_points xs) a.0 (sorted_points-All bound xs a.1)

retain-All :
    (bound : ℕ) (test : ℕ → Bool) (points : List ℕ)
    → All (λ p. p ≤ bound) points
    → All (λ p. p ≤ bound) (retain test points)
unfolding retain
retain-All bound test [] a = tt
retain-All bound test (x ∷ xs) a = ground (arith, retain-All bound test xs a.1)

append-All :
    (bound : ℕ) (xs ys : List ℕ)
    → All (λ p. p ≤ bound) xs
    → All (λ p. p ≤ bound) ys
    → All (λ p. p ≤ bound) (xs ++ ys)
append-All bound [] ys a b = b
append-All bound (x ∷ xs) ys a b = (a.0, append-All bound xs ys a.1 b)

minimum-IsWithin :
    (bound : ℕ) (points : List ℕ) → All (λ p. p ≤ bound) points → IsWithin bound (minimum points)
unfolding minimum
minimum-IsWithin bound [] a = tt
minimum-IsWithin bound (x ∷ xs) a = ground (arith, minimum-IsWithin bound xs a.1)

position_after_filemark-le :
    (s : TapeState) (mark : ℕ) → IsTape s → position_after_filemark s mark ≤ s.eod_position
unfolding position_after_filemark
position_after_filemark-le s mark i =
    let eod : All (λ p. p ≤ s.eod_position) (s.eod_position ∷ []) = (omega arith, tt) in
    let marks = append-All s.eod_position s.block_starts s.filemarks i.1.1 i.1.0 in
    let points =
      append-All s.eod_position (s.block_starts ++ s.filemarks) (s.eod_position ∷ []) marks eod in
    ground (
      arith,
      minimum-IsWithin s.eod_position _ (retain-All s.eod_position (λ p. ltb mark p) _ points),
    )

and_then-EndsWithin :
    (bound : ℕ) (r : Result TapeError ℕ) (next : ℕ → Result TapeError ℕ)
    → EndsWithin bound r
    → ((p : ℕ) → p ≤ bound → EndsWithin bound (next p))
    → EndsWithin bound (and_then r next)
and_then-EndsWithin bound (err e) next h w = tt
and_then-EndsWithin bound (ok p) next h w = w p h

repeat-EndsWithin :
    (bound count position : ℕ) (step : ℕ → Result TapeError ℕ)
    → position ≤ bound
    → ((p : ℕ) → EndsWithin bound (step p))
    → EndsWithin bound (repeat count step position)
unfolding repeat
repeat-EndsWithin bound zero position step h w = h
repeat-EndsWithin bound (suc count) position step h w =
    and_then-EndsWithin bound (step position) (repeat count step) (w position)
      (λ p v. repeat-EndsWithin bound count p step v w)

ok_or-EndsWithin :
    (bound : ℕ) (o : Option ℕ) (e : TapeError) → IsWithin bound o → EndsWithin bound (ok_or o e)
ok_or-EndsWithin bound none e h = tt
ok_or-EndsWithin bound (some p) e h = h

ensure-EndsWithin :
    (bound : ℕ) (test : Bool) (e : TapeError) (r : Result TapeError ℕ)
    → EndsWithin bound r
    → EndsWithin bound (and_then (ensure test e) (λ _. r))
ensure-EndsWithin bound true e r h = h
ensure-EndsWithin bound false e r h = tt

module _ (s : TapeState) (i : IsTape s) where
  forward_filemark-EndsWithin : (p : ℕ) → EndsWithin s.eod_position (forward_filemark s p)
  unfolding forward_filemark
  forward_filemark-EndsWithin p =
      and_then-EndsWithin s.eod_position _ _
        (ok_or-EndsWithin s.eod_position _ _
          (find-IsWithin s.eod_position _ _ (sorted_points-All s.eod_position s.filemarks i.1.0)))
        (λ mark h. position_after_filemark-le s mark i)

  backward_filemark-EndsWithin : (p : ℕ) → EndsWithin s.eod_position (backward_filemark s p)
  unfolding backward_filemark
  backward_filemark-EndsWithin p = ok_or-EndsWithin s.eod_position _ _ (
      previous_point-IsWithin s.eod_position p (sorted_points s.filemarks)
        (sorted_points-All s.eod_position s.filemarks i.1.0))

  space_blocks-EndsWithin : (count : ℤ) → EndsWithin s.eod_position (space_blocks s count)
  unfolding space_blocks next_point
  space_blocks-EndsWithin (pos zero) = i.0
  space_blocks-EndsWithin (pos (suc n)) = ensure-EndsWithin s.eod_position _ _ _ (
      repeat-EndsWithin s.eod_position (suc n) s.current_position _ i.0 (λ p.
        ok_or-EndsWithin s.eod_position _ _ (find-IsWithin s.eod_position _ s.block_starts i.1.1)))
  space_blocks-EndsWithin (negsuc n) = ensure-EndsWithin s.eod_position _ _ _ (
      repeat-EndsWithin s.eod_position (suc n) s.current_position _ i.0 (λ p.
        ok_or-EndsWithin s.eod_position _ _
          (previous_point-IsWithin s.eod_position p s.block_starts i.1.1)))

  space_filemarks-EndsWithin : (count : ℤ) → EndsWithin s.eod_position (space_filemarks s count)
  unfolding space_filemarks
  space_filemarks-EndsWithin (pos zero) = i.0
  space_filemarks-EndsWithin (pos (suc n)) = ensure-EndsWithin s.eod_position _ _ _ (
      repeat-EndsWithin s.eod_position (suc n) s.current_position (forward_filemark s) i.0
        forward_filemark-EndsWithin)
  space_filemarks-EndsWithin (negsuc n) = ensure-EndsWithin s.eod_position _ _ _ (
      repeat-EndsWithin s.eod_position (suc n) s.current_position (backward_filemark s) i.0
        backward_filemark-EndsWithin)

  space_end_of_data-EndsWithin : (count : ℤ) → EndsWithin s.eod_position (space_end_of_data s count)
  unfolding space_end_of_data
  space_end_of_data-EndsWithin (pos zero) = omega arith
  space_end_of_data-EndsWithin (pos (suc zero)) = omega arith
  space_end_of_data-EndsWithin (pos (suc (suc n))) = tt
  space_end_of_data-EndsWithin (negsuc zero) = omega arith
  space_end_of_data-EndsWithin (negsuc (suc n)) = tt

  space_target-EndsWithin :
      (branch : SpaceBranch) (count : ℤ) → EndsWithin s.eod_position (space_target s branch count)
  unfolding space_target
  space_target-EndsWithin blocks count = space_blocks-EndsWithin count
  space_target-EndsWithin filemarks count = space_filemarks-EndsWithin count
  space_target-EndsWithin end_of_data count = space_end_of_data-EndsWithin count

space_only_moves :
    (branch : SpaceBranch) (count : ℤ) (s : TapeState)
    → ((space branch count s).1.eod_position ≡ s.eod_position)
      × (((space branch count s).1.filemarks ≡ s.filemarks)
          × ((space branch count s).1.block_starts ≡ s.block_starts))
unfolding space ◌>>=◌
space_only_moves branch count s = (ground arith, (ground arith, ground arith))

space_stays_within :
    (branch : SpaceBranch) (count : ℤ) (s : TapeState)
    → IsTape s
    → (space branch count s).1.current_position ≤ s.eod_position
unfolding space ◌>>=◌
space_stays_within branch count s i =
    let counted = record s { space_ops = saturating_add s.space_ops 1 } in
    ground (arith, space_target-EndsWithin counted i branch count)

-- SPACE in every branch and for every count, refused or not, leaves the position on the recorded
-- tape, if it stood there and so do the filemarks and the block starts.
pub space-IsTape :
    (branch : SpaceBranch) (count : ℤ) (s : TapeState) → IsTape s → IsTape (space branch count s).1
space-IsTape branch count s i =
    let same = space_only_moves branch count s in
    rw (same.0, same.1.0, same.1.1) (space_stays_within branch count s i, i.1)

-- A SPACE that is refused leaves the position where it was, in every branch and for every count.
pub space_refused_stays :
    (branch : SpaceBranch) (count : ℤ) (s : TapeState) (e : TapeError)
    → (space branch count s).0 ≡ err e
    → (space branch count s).1.current_position ≡ s.current_position
unfolding space ◌>>=◌
space_refused_stays branch count s e h = ground arith
