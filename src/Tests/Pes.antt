-- ===== src/Tests/Pes.antt =====
-- Elementary streams on concrete packets.
use mymuxer.Base.{
  byte_at, slice_from, ℕ, ◌≡◌, refl, arith, List, [], ◌∷◌, Option, none, some, Outcome, ret,
  Returns,
}
use mymuxer.Pes.Golomb
use mymuxer.Pes.Golomb.{BitReader, read_bits, read_ue, load, refill_loop, refill, cut}
use mymuxer.Pes.Golomb.Reading.{
  View, IsReading, view, take_bits, new-IsReading, read_bits-take_bits,
}
use mymuxer.Pes.Golomb.Codes.{read_ue-code}
use mymuxer.Pes.Golomb.Zeros.{read_ue-zeros}
use mymuxer.Pes.Es.{Es, Pes}
use mymuxer.Pes.Audio.{find_mpeg_audio_header}
use mymuxer.Pes.Audio.First.{FirstFrom, find_mpeg_audio_header-FirstFrom}
use mymuxer.Pes.Nal.Escape.{escape, ebsp_to_rbsp-escape}
use mymuxer.Pes.Nal.{ebsp_to_rbsp, find_sps}
use mymuxer.Pes.Nal.Sps.{IsSps, find_sps-Returns}
use mymuxer.Pes.Parser.{PesReassembler, parse, push, pes_of, offset_of}
use mymuxer.Pes.Parser.Reassembly.{Kept, PayloadInside, push-again, push-Returns}
use mymuxer.Tests.{are_bytes_lem, payload_packet, payload_packet-IsPacket}

-- The code of 3, 00100, and three more bits.
abbrev code_bytes : List ℕ
code_bytes = 0x25 ∷ []

fresh-IsReading : IsReading (Golomb.new code_bytes)
fresh-IsReading = new-IsReading code_bytes (are_bytes_lem code_bytes refl)

read_bits-take_bits_example :
    IsReading ((read_bits (Golomb.new code_bytes) 3).0)
    × (◌≡◌ {A = View × ℕ}
        (view ((read_bits (Golomb.new code_bytes) 3).0), (read_bits (Golomb.new code_bytes) 3).1)
        (take_bits (view (Golomb.new code_bytes)) 3))
unfolding Golomb.new
read_bits-take_bits_example =
    read_bits-take_bits (Golomb.new code_bytes) 3 fresh-IsReading (omega arith) (omega arith)
      (omega arith)

read_ue-code_example :
    (r' : BitReader) × (read_ue 9 (Golomb.new code_bytes) ≡ some (r', 3))
    × IsReading r'
    × (◌≡◌ {A = View} (view r') (record { count = 3; value = 5 }))
unfolding Golomb.new
read_ue-code_example =
    read_ue-code 2 9 3 3 5 (Golomb.new code_bytes) fresh-IsReading refl (omega arith) (omega arith)
      (omega arith) (omega arith) (omega arith)

read_ue-zeros_example : read_ue 100 (Golomb.new (0 ∷ 0 ∷ [])) ≡ none
unfolding Golomb.new
read_ue-zeros_example =
    read_ue-zeros 100 (Golomb.new (0 ∷ 0 ∷ []))
      (new-IsReading (0 ∷ 0 ∷ []) (are_bytes_lem (0 ∷ 0 ∷ []) refl)) refl

abbrev audio_bytes : List ℕ
audio_bytes = 1 ∷ 0xFF ∷ 0 ∷ 0xFF ∷ 0xFD ∷ 0xA4 ∷ 4 ∷ []

find_mpeg_audio_header-FirstFrom_example :
    (o : Option ℕ) × (find_mpeg_audio_header audio_bytes ≡ some o) × FirstFrom audio_bytes 0 o
find_mpeg_audio_header-FirstFrom_example =
    find_mpeg_audio_header-FirstFrom audio_bytes (are_bytes_lem audio_bytes refl)

abbrev video_bytes : List ℕ
video_bytes = 0 ∷ 0 ∷ 1 ∷ 0x67 ∷ 0x42 ∷ 0 ∷ 0x1E ∷ 0 ∷ 0 ∷ 1 ∷ 0x68 ∷ []

find_sps-Returns_example :
    Returns
      (λ (o : Option (List ℕ)). (unit : List ℕ) → o ≡ some unit → IsSps video_bytes unit)
      (find_sps video_bytes)
find_sps-Returns_example = find_sps-Returns video_bytes (omega arith) (omega arith)

abbrev no_h264 : List ℕ → Outcome (Option Es)
no_h264 bytes = ret none

ebsp_to_rbsp-escape_example : ebsp_to_rbsp (escape (0 ∷ 0 ∷ 0 ∷ 3 ∷ [])) ≡ 0 ∷ 0 ∷ 0 ∷ 3 ∷ []
ebsp_to_rbsp-escape_example = ebsp_to_rbsp-escape (0 ∷ 0 ∷ 0 ∷ 3 ∷ [])

-- A PES packet of an unknown type, with an empty header.
abbrev pes_bytes : List ℕ
pes_bytes = 0 ∷ 0 ∷ 1 ∷ 0xE0 ∷ 0 ∷ 0 ∷ 0x80 ∷ 0xC0 ∷ 0 ∷ 9 ∷ []

abbrev pes : Pes
unfolding pes_of
pes = pes_of 0x80 0x80C0 (some (Es.unknown (record { stream_type = 0 })))

parsed : parse no_h264 pes_bytes 6 ≡ ret (some pes)
unfolding parse pes byte_at slice_from
parsed = refl

abbrev reassembler : PesReassembler
reassembler = record { pid = 256; stream_type = 6; buffer = pes_bytes }

pushed : push no_h264 reassembler payload_packet ≡ ret (reassembler, some pes)
unfolding push parse pes byte_at slice_from
pushed = refl

push-again_example :
    (reassembler ≡ reassembler)
    × (push no_h264 reassembler payload_packet ≡ ret (reassembler, some pes))
push-again_example = push-again no_h264 reassembler reassembler payload_packet pes pushed

payload_inside : PayloadInside payload_packet
unfolding offset_of byte_at
payload_inside offset e = let f : 4 ≡ offset = cc in omega arith

push-Returns_example : Returns (Kept reassembler) (push no_h264 reassembler payload_packet)
push-Returns_example =
    push-Returns no_h264 reassembler payload_packet refl (are_bytes_lem pes_bytes refl)
      payload_packet-IsPacket payload_inside
