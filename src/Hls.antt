-- ===== src/Hls.antt =====
-- src/hls_client.rs: which segments of a playlist are fetched. The hash of `DefaultHasher`, the
-- joining of URLs and what comes over the network are parameters; waiting, cancelling and the
-- pacing of what was fetched are left out, and segments' durations, which only they use.
pub mod Queue
pub mod Pass
use Prim.Native.String.{String}
use mymuxer.Base.{
  ℕ, zero, suc, ◌+◌, ◌-◌, List, [], ◌∷◌, ◌++◌, Bool, true, false, Option, none, some, leb, ltb,
  ◌==◌, if◌then◌else◌, length, take, drop,
}
use mymuxer.Base.Maps.{contains}

-- Hashes, the latest first.
pub record ChunkQueue : Type 0 where
  pub queue : List ℕ
  pub capacity : ℕ

unfoldable pub new : ℕ → ChunkQueue
new capacity = record { queue = []; capacity = capacity }

-- `VecDeque::pop_back`
unfoldable pub pop_back : List ℕ → List ℕ
pop_back [] = []
pop_back (h ∷ []) = []
pop_back (h ∷ k ∷ hashes) = h ∷ pop_back (k ∷ hashes)

unfoldable pub push_hash : ℕ → ChunkQueue → ChunkQueue
unfolding pop_back
push_hash hash q = record q {
  queue = hash ∷ (if leb q.capacity (length q.queue) then pop_back q.queue else q.queue);
}

-- `MAX_SEGMENTS_COUNT`
abbrev pub max_segments_count : ℕ
max_segments_count = 50

-- What comes of the request for a segment: an error, a status or a time that is none of success; no
-- content; less than announced, or too late; or the segment.
pub data Fetched : Type 0 where
  refused empty broken : Fetched
  body : List ℕ → Fetched

-- The client's variables; `chunks` waits to be sent.
pub record Client : Type 0 where
  pub downloaded_chunks : ChunkQueue
  pub chunks : List (List ℕ)
  pub is_first_fetch : Bool
  pub error_count : ℕ
  pub error_segment_count : ℕ

unfoldable pub start : Client
unfolding new
start = record {
  downloaded_chunks = new max_segments_count;
  chunks = [];
  is_first_fetch = true;
  error_count = 0;
  error_segment_count = 0;
}

module _ (hash : String → ℕ) where
  unfoldable pub push : String → ChunkQueue → ChunkQueue
  unfolding push_hash
  push item q = push_hash (hash item) q

  unfoldable pub contains_item : String → ChunkQueue → Bool
  contains_item item q = contains (hash item) q.queue

  unfoldable pub push_all : List String → ChunkQueue → ChunkQueue
  unfolding push
  push_all [] q = q
  push_all (item ∷ items) q = push_all items (push item q)

  -- Of the first playlist, all but the last three segments count as downloaded.
  unfoldable pub skip_first : List String → Client → Client × List String
  unfolding push_all
  skip_first uris c =
      if c.is_first_fetch
      then if ltb 3 (length uris)
        then (
          record c {
            is_first_fetch = false;
            downloaded_chunks = push_all (take (length uris - 3) uris) c.downloaded_chunks;
          },
          drop (length uris - 3) uris,
        )
        else (record c { is_first_fetch = false }, uris)
      else (c, uris)

  module _ {Url : Type 0} (join : String → Option Url) (fetch : Url → Fetched) where
    -- A segment that is not yet downloaded; `false` says that the playlist is read again.
    unfoldable pub fetch_segment : String → Client → Client × Bool
    unfolding push
    fetch_segment uri c =
        let pushed = record c { downloaded_chunks = push uri c.downloaded_chunks } in
        elim (join uri) [
          | none ↦ (pushed, true)
          | some url ↦ elim (fetch url) [
            | Fetched.refused ↦ (record pushed { error_count = c.error_count + 1 }, false)
            | Fetched.empty ↦ (pushed, true)
            | Fetched.broken ↦
                (record pushed { error_segment_count = c.error_segment_count + 1 }, false)
            | Fetched.body bytes ↦
                (record pushed { chunks = c.chunks ++ bytes ∷ []; error_segment_count = 0 }, true)
          ]
        ]

    -- The loop over the segments of a playlist.
    unfoldable pub segments_loop : List String → Client → Client
    unfolding contains_item fetch_segment
    segments_loop [] c = c
    segments_loop (uri ∷ uris) c =
        let skipped = segments_loop uris c in
        let (c', on) = fetch_segment uri c in
        let rest = segments_loop uris c' in
        if contains_item uri c.downloaded_chunks then skipped else if on then rest else c'

    unfoldable pub playlist : List String → Client → Client
    unfolding skip_first segments_loop
    playlist uris c = let (c', left) = skip_first uris c in segments_loop left c'
