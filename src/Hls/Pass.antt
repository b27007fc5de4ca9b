-- ===== src/Hls/Pass.antt =====
-- What a pass over a playlist fetches.
use Prim.Native.String.{String}
use mymuxer.Base.{
  ℕ, zero, suc, ◌≡◌, refl, sym, ◌∙◌, arith, List, [], ◌∷◌, ◌++◌, append_assoc, append-nil, All,
  true, false, Option, some, take,
}
use mymuxer.Base.Maps.{contains}
use mymuxer.Hls.{push, contains_item, Client, Fetched, body, fetch_segment, segments_loop}
use mymuxer.Hls.Queue.{newest, push_hash-window}

module _ (hash : String → ℕ) where
  -- Of segments still to come none has the hash of one pushed before it: with `all` pushed so far.
  abbrev pub Fresh : List String → List ℕ → Type 0
  Fresh [] all = Unit
  Fresh (uri ∷ uris) all = (contains (hash uri) all ≡ false) × Fresh uris (hash uri ∷ all)

  -- Segments that are all among the hashes.
  abbrev pub Known : List String → List ℕ → Type 0
  Known uris hashes = All (λ uri. contains (hash uri) hashes ≡ true) uris

  contains-take :
      (k n : ℕ) (all : List ℕ) → contains k all ≡ false → contains k (take n all) ≡ false
  unfolding contains
  contains-take k zero all h = refl
  contains-take k (suc n) [] h = refl
  contains-take k (suc n) (j ∷ all) h = ground (arith, contains-take k n all)

  module _ {Url : Type 0} (join : String → Option Url) (fetch : Url → Fetched) where
    -- The segment comes whole.
    abbrev pub Comes : String → List ℕ → Type 0
    Comes uri bytes = (url : Url) × (join uri ≡ some url) × (fetch url ≡ body bytes)

    -- The segments come whole, with these bytes.
    abbrev pub AllCome : List String → List (List ℕ) → Type 0
    AllCome [] [] = Unit
    AllCome (uri ∷ uris) (bytes ∷ more) = Comes uri bytes × AllCome uris more
    AllCome _ _ = ⊥

    -- What is known is passed over.
    segments_loop-old :
        (old new : List String) (c : Client)
        → Known old c.downloaded_chunks.queue
        → segments_loop hash join fetch (old ++ new) c ≡ segments_loop hash join fetch new c
    unfolding segments_loop contains_item
    segments_loop-old [] new c k = refl
    segments_loop-old (uri ∷ old) new c k = rw k.0 (segments_loop-old old new c k.1)

    -- One segment that is fresh is fetched.
    fetch_segment-body :
        (uri : String) (bytes : List ℕ) (c : Client)
        → Comes uri bytes
        → fetch_segment hash join fetch uri c ≡ (
          record c {
            downloaded_chunks = push hash uri c.downloaded_chunks;
            chunks = c.chunks ++ bytes ∷ [];
            error_segment_count = 0;
          },
          true,
        )
    unfolding fetch_segment
    fetch_segment-body uri bytes c (url, joined, whole) =
        rw (joined, fetch_segment) (rw (whole, fetch_segment) refl)

    -- New segments are fetched, each once.
    segments_loop-new :
        (n : ℕ) (new : List String) (bytes : List (List ℕ)) (all : List ℕ) (c : Client)
        → c.downloaded_chunks.capacity ≡ suc n
        → c.downloaded_chunks.queue ≡ take (suc n) all
        → Fresh new all
        → AllCome new bytes
        → ((segments_loop hash join fetch new c).chunks ≡ c.chunks ++ bytes)
          × ((segments_loop hash join fetch new c).downloaded_chunks.queue
              ≡ take (suc n) (newest hash new all))
    unfolding segments_loop contains_item push
    segments_loop-new n [] [] all c cap e f come = (sym (append-nil c.chunks), e)
    segments_loop-new n [] (b ∷ bytes) all c cap e f come = absurd come
    segments_loop-new n (uri ∷ new) [] all c cap e f come = absurd come
    segments_loop-new n (uri ∷ new) (b ∷ bytes) all c cap e f come =
        let absent : contains_item hash uri c.downloaded_chunks ≡ false =
          rw e (contains-take (hash uri) (suc n) all f.0) in
        let later =
          segments_loop-new n new bytes (hash uri ∷ all)
            (record c {
              downloaded_chunks = push hash uri c.downloaded_chunks;
              chunks = c.chunks ++ b ∷ [];
              error_segment_count = 0;
            })
            cap (push_hash-window n (hash uri) all c.downloaded_chunks cap e) f.1 come.1 in
        rw (absent, fetch_segment-body uri b c come.0)
          (later.0 ∙ append_assoc c.chunks (b ∷ []) bytes, later.1)

    -- Let the queue be the window on what was pushed so far, of which no new segment has the hash,
    -- nor two new ones the same. Then a pass over a playlist of segments that the window knows, with
    -- new ones behind them that come whole, fetches exactly the new ones, once each and in order, and
    -- leaves the window on all that was pushed.
    pub segments_loop-Window :
        (n : ℕ) (old new : List String) (bytes : List (List ℕ)) (all : List ℕ) (c : Client)
        → c.downloaded_chunks.capacity ≡ suc n
        → c.downloaded_chunks.queue ≡ take (suc n) all
        → Known old c.downloaded_chunks.queue
        → Fresh new all
        → AllCome new bytes
        → ((segments_loop hash join fetch (old ++ new) c).chunks ≡ c.chunks ++ bytes)
          × ((segments_loop hash join fetch (old ++ new) c).downloaded_chunks.queue
              ≡ take (suc n) (newest hash new all))
    segments_loop-Window n old new bytes all c cap e k f come =
        rw (segments_loop-old old new c k) (segments_loop-new n new bytes all c cap e f come)
