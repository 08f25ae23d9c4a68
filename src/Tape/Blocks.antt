-- ===== src/Tape/Blocks.antt =====
-- The index of the recorded blocks: `record_block` of data-plane/src/scsi_tape/command_chain.rs.
use holo.Prelude.{ℕ, ◌<◌, ◌≡◌, ◌==◌, Bool, ◌||◌, some, List, [], ◌∷◌, any, All, arith}
use holo.Prelude.OrdMap.{get, get-insert, contains_key, nat_keys}
use holo.Tape.{TapeState}
use holo.Tape.Medium.{insert_start, record_block}

abbrev pub IsAscending : List ℕ → Type 0
IsAscending [] = Unit {0}
IsAscending (x ∷ xs) = All (λ y. x < y) xs × IsAscending xs

abbrev pub has : ℕ → List ℕ → Bool
has p points = any (λ q. q == p) points

-- The starts ascend, so none stands twice, and they are the blocks that have a length.
abbrev pub IsIndexed : TapeState → Type 0
IsIndexed s =
    IsAscending s.block_starts × ((p : ℕ) → contains_key p s.block_lengths ≡ has p s.block_starts)

insert_start-All :
    (low x : ℕ) (points : List ℕ)
    → low < x
    → All (λ y. low < y) points
    → All (λ y. low < y) (insert_start x points)
unfolding insert_start
insert_start-All low x [] h a = (h, tt)
insert_start-All low x (y ∷ ys) h a = ground (arith, insert_start-All low x ys h a.1)

All-weaker : (x y : ℕ) (points : List ℕ) → x < y → All (λ z. y < z) points → All (λ z. x < z) points
All-weaker x y [] h a = tt
All-weaker x y (z ∷ zs) h a = (omega (arith, a.0), All-weaker x y zs h a.1)

insert_start-IsAscending :
    (x : ℕ) (points : List ℕ) → IsAscending points → IsAscending (insert_start x points)
unfolding insert_start
insert_start-IsAscending x [] a = (tt, tt)
insert_start-IsAscending x (y ∷ ys) a =
    ground (arith, insert_start-IsAscending x ys a.1, insert_start-All y x ys, All-weaker x y ys)

insert_start-has :
    (p x : ℕ) (points : List ℕ) → has p (insert_start x points) ≡ (x == p || has p points)
unfolding insert_start any
insert_start-has p x [] = ground arith
insert_start-has p x (y ∷ ys) = ground (arith, insert_start-has p x ys)

module _ (start length : ℕ) (s : TapeState) (i : IsIndexed s) where
  record_block-IsAscending : IsAscending (record_block start length s).block_starts
  unfolding record_block
  record_block-IsAscending = ground (arith, i.0, insert_start-IsAscending start s.block_starts i.0)

  record_block-has :
      (p : ℕ)
      → contains_key p (record_block start length s).block_lengths
        ≡ has p (record_block start length s).block_starts
  unfolding record_block contains_key
  record_block-has p = ground (
    arith,
    i.1 p,
    i.1 start,
    get-insert p start length s.block_lengths,
    insert_start-has p start s.block_starts,
  )

  record_block-get : get start (record_block start length s).block_lengths ≡ some length
  unfolding record_block
  record_block-get = ground (arith, get-insert start start length s.block_lengths)

-- Recording a block, new or again, keeps the starts ascending and equal to the blocks that have a
-- length, and the block's length is the recorded one.
record_block-IsIndexed :
    (start length : ℕ) (s : TapeState)
    → IsIndexed s
    → IsIndexed (record_block start length s)
      × (get start (record_block start length s).block_lengths ≡ some length)
record_block-IsIndexed start length s i = (
  (record_block-IsAscending start length s i, record_block-has start length s i),
  record_block-get start length s i,
)
