-- ===== src/Mux/Buffer.antt =====
-- src/mux.rs: `TsPacket` and `OutBuffer`, a queue of packets that counts its frames and clocks.
pub mod Counts
use mymuxer.Base.{
  ℕ, ◌+◌, ◌-◌, ◌*◌, List, [], ◌∷◌, ◌++◌, Bool, true, false, ◌&&◌, Option, none, some, ltb, ◌==◌,
  if◌then◌else◌, length, Outcome, ret, ◌>>=◌,
}
use mymuxer.Packet.{ts_packet_size, pkt_extract_pcr}
use mymuxer.Mux.Timing.{dts_forward_delta_ms}

pub record TsPacket : Type 0 where
  pub data' : List ℕ
  pub pid : ℕ
  pub pts : ℕ
  pub dts : ℕ
  pub pusi : Bool
  pub discontinuity : Bool
  pub pcr : Option ℕ

unfoldable pub new_packet : List ℕ → ℕ → ℕ → ℕ → Bool → Bool → TsPacket
new_packet data' pid pts dts pusi discontinuity = record {
  data' = data';
  pid = pid;
  pts = pts;
  dts = dts;
  pusi = pusi;
  discontinuity = discontinuity;
  pcr = none;
}

unfoldable pub extract_pcr : TsPacket → Outcome TsPacket
extract_pcr p = do pcr ← pkt_extract_pcr p.data'; ret (record p { pcr = pcr })

pub record OutBuffer : Type 0 where
  pub inner : List TsPacket
  pub unique_frames_count : ℕ
  pub pcr_count : ℕ

unfoldable pub new : OutBuffer
new = record { inner = []; unique_frames_count = 0; pcr_count = 0 }

unfoldable pub clear : OutBuffer → OutBuffer
clear b = record b { inner = []; unique_frames_count = 0; pcr_count = 0 }

abbrev pub is_some {ℓ} : {A : Type ℓ} → Option A → Bool
is_some none = false
is_some (some a) = true

unfoldable pub push_back : OutBuffer → TsPacket → OutBuffer
push_back b pkt = record b {
  inner = b.inner ++ (pkt ∷ []);
  unique_frames_count = if pkt.pusi then b.unique_frames_count + 1 else b.unique_frames_count;
  pcr_count = if is_some pkt.pcr then b.pcr_count + 1 else b.pcr_count;
}

-- The packet leaves, with `saturating_sub` on the counts.
unfoldable pub popped : OutBuffer → TsPacket → List TsPacket → OutBuffer
popped b current rest = record b {
  inner = rest;
  unique_frames_count = if current.pusi then b.unique_frames_count - 1 else b.unique_frames_count;
  pcr_count = if is_some current.pcr then b.pcr_count - 1 else b.pcr_count;
}

unfoldable pub pop_front : OutBuffer → OutBuffer × Option TsPacket
pop_front b = elim b.inner [
  | [] ↦ (b, none)
  | current ∷ rest ↦ (popped b current rest, some current)
]

abbrev pub first_of_list {ℓ} : {A : Type ℓ} → List A → Option A
first_of_list [] = none
first_of_list (x ∷ xs) = some x

abbrev pub last_of_list {ℓ} : {A : Type ℓ} → List A → Option A
last_of_list [] = none
last_of_list (x ∷ []) = some x
last_of_list (x ∷ y ∷ xs) = last_of_list (y ∷ xs)

unfoldable pub front : OutBuffer → Option TsPacket
front b = first_of_list b.inner

unfoldable pub back : OutBuffer → Option TsPacket
back b = last_of_list b.inner

unfoldable pub size : OutBuffer → ℕ
size b = length b.inner * ts_packet_size

-- `dts_forward_delta_ms(...).unwrap_or(0)`
abbrev pub or_zero : Option ℕ → ℕ
or_zero none = 0
or_zero (some n) = n

unfoldable pub duration_ms : OutBuffer → ℕ
duration_ms b = elim (first_of_list b.inner) [
  | none ↦ 0
  | some first ↦ elim (last_of_list b.inner) [
    | none ↦ 0
    | some last ↦ or_zero (dts_forward_delta_ms last.dts first.dts)
  ]
]

unfoldable pub is_dirty : OutBuffer → Bool
is_dirty b = duration_ms b == 0 && ltb 1 b.unique_frames_count
