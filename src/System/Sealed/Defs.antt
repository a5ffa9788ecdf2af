-- ===== src/System/Sealed/Defs.antt =====
-- Complete streams have the chunks that were counted; when a change of the database keeps that.
use safety_recorder.Base.{ℕ, String, ◌≡◌, ap, ◌∙◌, true, some, select, order_by, find_row, sym}
use safety_recorder.Model.{MediaStream, is_complete, Db}
use safety_recorder.Repository.Streams.{
  stream_key, find_stream, in_stream, stream_chunks, count_rows, lower_index,
}
use safety_recorder.System.Frame.{SameMedia}

-- Every complete stream has as many chunks as were expected, with the indices 1, 2, 3 and so on and
-- the stream's media type.
abbrev pub IsSealed : Db → Type 0
IsSealed d =
    (i k : String) (st : MediaStream)
    → find_stream i k d ≡ some st
    → is_complete st.status ≡ true
    → (n : ℕ) × (st.expected_chunk_count ≡ some n)
      × (count_rows st.media_type 0 (stream_chunks i k d) ≡ some n)

-- A complete stream of `e` is one of `d`, with the same chunks.
abbrev pub SameSealed : Db → Db → Type 0
SameSealed d e =
    (i k : String) (st : MediaStream)
    → find_stream i k e ≡ some st
    → is_complete st.status ≡ true
    → (find_stream i k d ≡ some st)
      × (select (in_stream i k) e.chunks ≡ select (in_stream i k) d.chunks)

pub IsSealed-of : (d e : Db) → SameSealed d e → IsSealed d → IsSealed e
IsSealed-of d e same h i k st f c =
    let s = same i k st f c in
    let r = h i k st s.0 c in
    (r.0, r.1, ap (λ l. count_rows st.media_type 0 (order_by lower_index l)) s.1 ∙ r.2)

pub SameMedia-IsSealed : (d e : Db) → SameMedia d e → IsSealed d → IsSealed e
SameMedia-IsSealed d e s =
    IsSealed-of d e (λ i k st f c.
      (sym (ap (find_row (stream_key i k)) s.0) ∙ f, ap (select (in_stream i k)) s.1))
