-- ===== src/Psi/Changes.antt =====
-- src/psi/pmt.rs: `is_pmt_changed` compares two tables up to the order of their streams.
pub mod Order
use mymuxer.Base.{
  ℕ, List, [], ◌∷◌, map, Bool, true, false, not, ◌&&◌, ◌||◌, ltb, leb, ◌==◌, if◌then◌else◌, length,
}
use mymuxer.Psi.Pmt.{StreamInfo, PmtInfo}

-- `StreamInfoDiff`: the type and the PID of a stream.
abbrev pub StreamInfoDiff : Type 0
StreamInfoDiff = ℕ × ℕ

unfoldable pub diff_of : StreamInfo → StreamInfoDiff
diff_of s = (s.stream_type, s.pid)

unfoldable pub same_diff : StreamInfoDiff → StreamInfoDiff → Bool
same_diff (t, p) (u, q) = t == u && p == q

unfoldable pub same_streams : List StreamInfoDiff → List StreamInfoDiff → Bool
unfolding same_diff
same_streams [] [] = true
same_streams (a ∷ more) (b ∷ others) = same_diff a b && same_streams more others
same_streams _ _ = false

-- The derived order: by type, then by PID.
unfoldable pub before_or_same : StreamInfoDiff → StreamInfoDiff → Bool
before_or_same (t, p) (u, q) = ltb t u || (t == u && leb p q)

-- `sort_unstable`: the order is total and antisymmetric, so that there is one sorted list.
unfoldable pub insert_stream : StreamInfoDiff → List StreamInfoDiff → List StreamInfoDiff
unfolding before_or_same
insert_stream a [] = a ∷ []
insert_stream a (b ∷ others) =
    if before_or_same a b then a ∷ b ∷ others else b ∷ insert_stream a others

unfoldable pub sort_streams : List StreamInfoDiff → List StreamInfoDiff
unfolding insert_stream
sort_streams [] = []
sort_streams (a ∷ more) = insert_stream a (sort_streams more)

unfoldable pub is_pmt_changed : PmtInfo → PmtInfo → Bool
unfolding same_streams sort_streams diff_of
is_pmt_changed a b =
    if not (a.pcr_pid == b.pcr_pid) || not (length a.streams == length b.streams)
    then true
    else if same_streams (map diff_of a.streams) (map diff_of b.streams)
    then false
    else not
        (same_streams (sort_streams (map diff_of a.streams)) (sort_streams (map diff_of b.streams)))
