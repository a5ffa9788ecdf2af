-- ===== src/System/Sealed/Contiguous.antt =====
-- What the count of `validateCompleteStreamChunkRows` means.
use safety_recorder.System.Sealed.Defs.{IsSealed}
use safety_recorder.Base.{
  ℕ, zero, suc, ◌+◌, ◌≡◌, refl, List, [], ◌∷◌, map, some, arith, length, All, String, find_row,
  true,
}
use safety_recorder.Model.{MediaType, MediaStream, Chunk, same_media, is_complete, AccountRow}
use safety_recorder.Repository.Streams.{count_rows, find_stream, stream_chunks}
use safety_recorder.System.{Command, run, empty_db}
use safety_recorder.System.Sealed.Run.{run-IsSealed}

-- c + 1, c + 2, ..., c + n.
abbrev pub count_up : ℕ → ℕ → List ℕ
count_up c zero = []
count_up c (suc n) = suc c ∷ count_up (suc c) n

-- The rows have the indices 1 to n, each once and in order, and the media type of the stream.
pub record IsContiguous (m : MediaType) (n : ℕ) (rows : List Chunk) : Type 0 where
  pub indices : map (λ (r : Chunk). r.chunk_index) rows ≡ count_up 0 n
  pub media : All (λ (r : Chunk). r.media_type ≡ m) rows

same_media-eq : (a b : MediaType) → same_media a b ≡ true → a ≡ b
same_media-eq a b h = ground arith

count_rows_sound :
    (m : MediaType) (c n : ℕ) (rows : List Chunk)
    → count_rows m c rows ≡ some n
    → (n ≡ c + length rows)
      × (map (λ (r : Chunk). r.chunk_index) rows ≡ count_up c (length rows))
      × All (λ (r : Chunk). r.media_type ≡ m) rows
unfolding count_rows
count_rows_sound m c n [] h = (ground arith, refl, tt)
count_rows_sound m c n (r ∷ rows) h =
    ground (arith, count_rows_sound m (suc c) n rows, same_media-eq r.media_type m)

pub count_rows-IsContiguous :
    (m : MediaType) (n : ℕ) (rows : List Chunk)
    → count_rows m 0 rows ≡ some n
    → IsContiguous m n rows
count_rows-IsContiguous m n rows h =
    let r = count_rows_sound m 0 n rows h in
    let e : n ≡ length rows = omega (arith, r.0) in record { indices = rw e r.1; media = r.2 }

empty_db-IsSealed : (accounts : List AccountRow) → IsSealed (empty_db accounts)
unfolding find_row
empty_db-IsSealed accounts i k st f c = absurd (cc f)

-- From an empty database, whatever of the modelled writing calls are made in whatever order: the
-- chunk rows of each complete stream, in the order of their index, have the indices 1 to n, where n
-- is the expected count that was recorded, and the media type of the stream.
pub complete_stream-IsContiguous :
    (hash : String → String) (accounts : List AccountRow) (cs : List Command) (i k : String)
    (st : MediaStream)
    → find_stream i k (run hash cs (empty_db accounts)) ≡ some st
    → is_complete st.status ≡ true
    → (n : ℕ) × (st.expected_chunk_count ≡ some n)
      × IsContiguous st.media_type n (stream_chunks i k (run hash cs (empty_db accounts)))
complete_stream-IsContiguous hash accounts cs i k st f c =
    let r = run-IsSealed hash cs (empty_db accounts) (empty_db-IsSealed accounts) i k st f c in
    (r.0, r.1, count_rows-IsContiguous st.media_type r.0 _ r.2)
