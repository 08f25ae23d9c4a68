-- ===== src/Wire/Reader.antt =====
-- `std::io::Read::read_exact` on a byte list, and the errors of the frame functions.
use holo.Prelude.{
  ℕ, ◌≡◌, leb, List, [], ◌∷◌, ◌++◌, length, take, drop, length-append, arith, if◌then◌else◌,
  take-append_length, drop-append_length,
}
use holo.Prelude.Outcome.{ok, err, Exec}

pub data IoError : Type 0 where
  invalid_input invalid_data unexpected_eof : IoError

abbrev pub Read : Type 0 → Type 0
Read A = Exec IoError (List ℕ) A

-- Where the bytes run out, the rest of the reader is lost.
unfoldable pub read_exact : ℕ → Read (List ℕ)
read_exact n bytes =
    if leb n (length bytes) then (ok (take n bytes), drop n bytes) else (err unexpected_eof, [])

-- `read_exact` into a buffer of one byte.
unfoldable pub read_byte : Read ℕ
read_byte [] = (err unexpected_eof, [])
read_byte (b ∷ bytes) = (ok b, bytes)

pub read_exact-append :
    (n : ℕ) (xs rest : List ℕ) → length xs ≡ n → read_exact n (xs ++ rest) ≡ (ok xs, rest)
unfolding read_exact
read_exact-append n xs rest e =
    rw (← e) (
      ground (arith, length-append xs rest, take-append_length xs rest, drop-append_length xs rest))
