-- ===== src/Tests/Hls.antt =====
-- A playlist of three segments.
use Prim.Native.String.{String}
use text.Mathlib.Text.{◌==◌ as str_eq}
use mymuxer.Base.{ℕ, ◌≡◌, refl, [], ◌∷◌, Option, some, false, if◌then◌else◌}
use mymuxer.Base.Maps.{contains}
use mymuxer.Hls.{ChunkQueue, Client, Fetched, body, segments_loop}
use mymuxer.Hls.Pass.{segments_loop-Window}

-- A hash of the three names.
abbrev name_hash : String → ℕ
name_hash uri = if str_eq uri "a.ts" then 1 else if str_eq uri "b.ts" then 2 else 3

-- A queue of two hashes, which holds the second segment.
abbrev small_queue : ChunkQueue
small_queue = record { queue = 2 ∷ []; capacity = 2 }

abbrev small_client : Client
small_client = record {
  downloaded_chunks = small_queue;
  chunks = [];
  is_first_fetch = false;
  error_count = 0;
  error_segment_count = 0;
}

abbrev found : String → Option ℕ
found uri = some (name_hash uri)

abbrev served : ℕ → Fetched
served n = body (n ∷ [])

segments_loop-Window_example :
    ((segments_loop name_hash found served ("b.ts" ∷ "c.ts" ∷ []) small_client).chunks
      ≡ (3 ∷ []) ∷ [])
    × ((segments_loop name_hash found served
          ("b.ts" ∷ "c.ts" ∷ [])
          small_client).downloaded_chunks.queue
        ≡ 3 ∷ 2 ∷ [])
unfolding contains
segments_loop-Window_example =
    segments_loop-Window name_hash found served 1 ("b.ts" ∷ []) ("c.ts" ∷ []) ((3 ∷ []) ∷ [])
      (2 ∷ []) small_client refl refl (refl, tt) (refl, tt) ((3, refl, refl), tt)
