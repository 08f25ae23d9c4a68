-- ===== src/Storage/DataBlob/Search.antt =====
-- The search of a blob by its id: data-plane/src/storage/data_path.rs.
use Prim.Native.Nat.{zero, suc}
use holo.Prelude.{
  ℕ, ◌+◌, ◌-◌, ◌/◌, ◌≤◌, ◌<◌, ◌≡◌, refl, sym, ◌∙◌, ltb, leb, ◌==◌, Bool, true, ◌&&◌, none, some,
  List, [], ◌∷◌, ◌++◌, length, get_elem?, take, drop, find, arith, if◌then◌else◌, Bool-cases, inl,
  inr,
}
use holo.Storage.DataBlob.{DataBlobMeta}
use holo.Storage.DataBlob.Store.{search_window, find_blob}

abbrev pub id_test : ℕ → DataBlobMeta → Bool
id_test blob_id m = m.blob_id == blob_id

-- The ids ascend from the low one, and all are below the high one.
unfoldable pub ids_within : ℕ → ℕ → List DataBlobMeta → Bool
ids_within low high [] = true
ids_within low high (m ∷ ms) =
    (leb low m.blob_id && ltb m.blob_id high) && ids_within (m.blob_id + 1) high ms

find_below :
    (id low high : ℕ) (ms : List DataBlobMeta)
    → ids_within low high ms ≡ true
    → id < low
    → find (id_test id) ms ≡ none
unfolding ids_within find
find_below id low high [] h l = refl
find_below id low high (m ∷ ms) h l = ground (arith, find_below id (m.blob_id + 1) high ms)

low_id :
    (low high i : ℕ) (ms : List DataBlobMeta) (m : DataBlobMeta)
    → ids_within low high ms ≡ true
    → get_elem? ms i ≡ some m
    → low ≤ m.blob_id
unfolding ids_within
low_id low high i [] m h g = absurd (ground (arith, g))
low_id low high zero (x ∷ ms) m h g =
    let same : x.blob_id ≡ m.blob_id = ground (arith, g) in ground (arith, h)
low_id low high (suc i) (x ∷ ms) m h g = ground (arith, low_id (x.blob_id + 1) high i ms m, g)

unfound_before :
    (id k : ℕ) (ms : List DataBlobMeta)
    → find (id_test id) ms ≡ none
    → find (id_test id) (take k ms) ≡ none
unfolding find
unfound_before id zero ms h = refl
unfound_before id (suc k) [] h = refl
unfound_before id (suc k) (m ∷ ms) h = ground (arith, unfound_before id k ms)

-- The entries behind one whose id is too high do not matter, nor do those before one whose id is not.
find-take :
    (id low high half k : ℕ) (ms : List DataBlobMeta) (m : DataBlobMeta)
    → ids_within low high ms ≡ true
    → get_elem? ms half ≡ some m
    → id < m.blob_id
    → half ≤ k
    → find (id_test id) (take k ms) ≡ find (id_test id) ms
unfolding find ids_within
find-take id low high half k [] m h g l b = absurd (ground (arith, g))
find-take id low high zero k (x ∷ ms) m h g l b =
    let same : x.blob_id ≡ m.blob_id = ground (arith, g) in
    let none_there : find (id_test id) (x ∷ ms) ≡ none =
      unfold find ids_within in ground (arith, find_below id (x.blob_id + 1) high ms, h, same, l) in
    unfound_before id k (x ∷ ms) none_there ∙ sym none_there
find-take id low high (suc half) zero (x ∷ ms) m h g l b = absurd (omega arith)
find-take id low high (suc half) (suc k) (x ∷ ms) m h g l b =
    unfold find ids_within in
    ground (arith, find-take id (x.blob_id + 1) high half k ms m, h, g, l, b)

find-drop :
    (id low high half : ℕ) (ms : List DataBlobMeta) (m : DataBlobMeta)
    → ids_within low high ms ≡ true
    → get_elem? ms half ≡ some m
    → m.blob_id ≤ id
    → find (id_test id) (drop half ms) ≡ find (id_test id) ms
unfolding find ids_within
find-drop id low high zero ms m h g l = refl
find-drop id low high (suc half) [] m h g l = absurd (ground (arith, g))
find-drop id low high (suc half) (x ∷ ms) m h g l = ground (
  arith,
  find-drop id (x.blob_id + 1) high half ms m,
  low_id (x.blob_id + 1) high half ms m,
  h,
  g,
  l,
)

weaker :
    (low low' high : ℕ) (ms : List DataBlobMeta)
    → ids_within low high ms ≡ true
    → low' ≤ low
    → ids_within low' high ms ≡ true
unfolding ids_within
weaker low low' high [] h l = refl
weaker low low' high (m ∷ ms) h l = ground (arith, h, l)

taken_within :
    (low high k : ℕ) (ms : List DataBlobMeta)
    → ids_within low high ms ≡ true
    → ids_within low high (take k ms) ≡ true
unfolding ids_within
taken_within low high zero ms h = refl
taken_within low high (suc k) [] h = refl
taken_within low high (suc k) (m ∷ ms) h = ground (arith, taken_within (m.blob_id + 1) high k ms, h)

dropped_within :
    (low high k : ℕ) (ms : List DataBlobMeta)
    → ids_within low high ms ≡ true
    → ids_within low high (drop k ms) ≡ true
unfolding ids_within
dropped_within low high zero ms h = h
dropped_within low high (suc k) [] h = refl
dropped_within low high (suc k) (m ∷ ms) h =
    weaker (m.blob_id + 1) low high (drop k ms)
      (dropped_within (m.blob_id + 1) high k ms (ground (arith, h))) (ground (arith, h))

short_take : (k : ℕ) (ms : List DataBlobMeta) → length (take k ms) ≤ k
short_take zero ms = omega arith
short_take (suc k) [] = omega arith
short_take (suc k) (m ∷ ms) = omega (arith, short_take k ms)

short_drop : (k : ℕ) (ms : List DataBlobMeta) → length (drop k ms) ≤ length ms - k
short_drop zero ms = omega arith
short_drop (suc k) [] = omega arith
short_drop (suc k) (m ∷ ms) = omega (arith, short_drop k ms)

entry_at :
    (i : ℕ) (ms : List DataBlobMeta)
    → i < length ms
    → (m : DataBlobMeta) × (get_elem? ms i ≡ some m)
entry_at i [] h = absurd (omega arith)
entry_at zero (m ∷ ms) h = (m, refl)
entry_at (suc i) (m ∷ ms) h = entry_at i ms (omega arith)

search_step :
    (fuel id : ℕ) (m n : DataBlobMeta) (ms : List DataBlobMeta) (middle : DataBlobMeta)
    → get_elem? (m ∷ n ∷ ms) (length (m ∷ n ∷ ms) / 2) ≡ some middle
    → search_window (suc fuel) id (m ∷ n ∷ ms) ≡ (
        if ltb id middle.blob_id
        then search_window fuel id
            (take (length (m ∷ n ∷ ms) - length (m ∷ n ∷ ms) / 2) (m ∷ n ∷ ms))
        else search_window fuel id (drop (length (m ∷ n ∷ ms) / 2) (m ∷ n ∷ ms)))
unfolding search_window
search_step fuel id m n ms middle g = rw (g, search_window) refl

search-find :
    (fuel id low high : ℕ) (ms : List DataBlobMeta)
    → length ms ≤ fuel
    → ids_within low high ms ≡ true
    → search_window fuel id ms ≡ find (id_test id) ms
search-find zero id low high [] f h = unfold search_window find in refl
search-find zero id low high (m ∷ ms) f h = absurd (omega arith)
search-find (suc fuel) id low high [] f h = unfold search_window find in refl
search-find (suc fuel) id low high (m ∷ []) f h = unfold search_window find in refl
search-find (suc fuel) id low high (m ∷ n ∷ ms) f h =
    let all = m ∷ n ∷ ms in
    let half = length all / 2 in
    let (middle, g) = entry_at half all (omega arith) in
    elim (Bool-cases (ltb id middle.blob_id)) [
      | inl lower ↦
          search_step fuel id m n ms middle g
          ∙ rw lower (
              search-find fuel id low high (take (length all - half) all)
                (omega (arith, short_take (length all - half) all))
                (taken_within low high (length all - half) all h))
          ∙ find-take id low high half (length all - half) all middle h g (ground (arith, lower))
              (omega arith)
      | inr upper ↦
          search_step fuel id m n ms middle g
          ∙ rw upper (
              search-find fuel id low high (drop half all) (omega (arith, short_drop half all))
                (dropped_within low high half all h))
          ∙ find-drop id low high half all middle h g (ground (arith, upper))
    ]

-- In a list whose ids ascend the search finds the entry that has the id.
pub find_blob-find :
    (id high : ℕ) (ms : List DataBlobMeta)
    → ids_within 0 high ms ≡ true
    → find_blob id ms ≡ find (id_test id) ms
unfolding find_blob
find_blob-find id high ms h = search-find (length ms) id 0 high ms (omega arith) h

pub new_id :
    (low high : ℕ) (ms : List DataBlobMeta)
    → ids_within low high ms ≡ true
    → find (id_test high) ms ≡ none
unfolding ids_within find
new_id low high [] h = refl
new_id low high (m ∷ ms) h = ground (arith, new_id (m.blob_id + 1) high ms, h)

pub ids_within-append :
    (low high : ℕ) (ms : List DataBlobMeta) (m : DataBlobMeta)
    → ids_within low high ms ≡ true
    → m.blob_id ≡ high
    → low ≤ high
    → ids_within low (high + 1) (ms ++ m ∷ []) ≡ true
unfolding ids_within
ids_within-append low high [] m h e l = ground (arith, e, l)
ids_within-append low high (x ∷ ms) m h e l =
    ground (arith, ids_within-append (x.blob_id + 1) high ms m, h, e)
