-- ===== src/Psi/Tdt.antt =====
-- src/psi/tdt.rs: the time and date table.
use mymuxer.Base.{◌∷◌}
use mymuxer.Psi.Encode.{Section}
use mymuxer.Psi.Time.{DateTime, encode_dvb_time}

unfoldable pub section : DateTime → Section
unfolding encode_dvb_time
section now = record { pid = 0x0014; bytes = 0x70 ∷ 0x70 ∷ 0x05 ∷ encode_dvb_time now }
