-- ===== src/Psi/Text.antt =====
-- src/psi/mod.rs: texts of the tables, and the counter of a cached packet. A text is the list of its
-- UTF-8 bytes.
pub mod Fit
use mymuxer.Base.{
  ℕ, zero, suc, ◌-◌, List, ◌∷◌, Bool, not, ◌||◌, ◌&&◌, ltb, ◌==◌, if◌then◌else◌, length, take,
  get_or, min, bit_and,
}
use mymuxer.Packet.{ts_sync_byte}

-- `str::is_char_boundary`: an end of the text, or a byte that does not continue a character.
unfoldable pub is_char_boundary : List ℕ → ℕ → Bool
is_char_boundary text i =
    i == 0
    || i == length text
    || (ltb i (length text) && not (bit_and (get_or text i 0) 0xC0 == 0x80))

-- The loop of `dvb_text`.
unfoldable pub boundary_below : List ℕ → ℕ → ℕ
boundary_below text zero = zero
boundary_below text (suc end) =
    let next = boundary_below text end in if is_char_boundary text (suc end) then suc end else next

unfoldable pub dvb_text : List ℕ → ℕ → List ℕ
dvb_text text max_len = 0x15 ∷ take (boundary_below text (min (length text) (max_len - 1))) text

unfoldable pub cached_cc : List ℕ → ℕ
cached_cc cached_pkt =
    if get_or cached_pkt 0 0 == ts_sync_byte then bit_and (get_or cached_pkt 3 0) 0x0F else 0
