-- ===== src/Config.antt =====
-- src/config.rs and src/misc.rs: the configuration's records, its validation, and the list of
-- networks that may connect. Files and the reading of JSON are left out; `last_update` is the text
-- that the number prints as, the only use made of it.
pub mod Validation
pub mod Networks
use Prim.Native.String.{String, ◌++◌}
use text.Mathlib.Text.{◌==◌ as str_eq}
use mymuxer.Base.{
  ℕ, List, [], ◌∷◌, Bool, true, false, Option, none, some, ◌==◌, if◌then◌else◌, Outcome, ret, panic,
}
use mymuxer.Mux.Handler.{Program}

pub record HttpRouterConfig : Type 0 where
  pub id : ℕ
  pub url : String
  pub routes : List String
  pub allow : List String

pub record EpgConfig : Type 0 where
  pub id : ℕ
  pub url : String

pub record Output : Type 0 where
  pub id : ℕ
  pub name : String
  pub output_url : String
  pub task_type : String
  pub biss_key : String
  pub ca_flag : ℕ
  pub pkt_size : ℕ
  pub cbr : ℕ
  pub proxy : Bool
  pub allow : List String
  pub programs : List Program
  pub err_count : ℕ

pub record Stream : Type 0 where
  pub id : ℕ
  pub remote_url : String
  pub biss_key : String
  pub name : String
  pub task_type : String
  pub outputs : List Output
  pub err_count : ℕ

pub record Mgnt : Type 0 where
  pub hash : String
  pub last_update : String
  pub admin_url : String
  pub allow : List String

pub record Config : Type 0 where
  pub mgnt : Mgnt
  pub epg_configs : List EpgConfig
  pub streams : List Stream
  pub http_routers : List HttpRouterConfig

-- `streams.iter().find(|s| s.id == id)`
unfoldable pub find_stream : ℕ → List Stream → Option Stream
find_stream id [] = none
find_stream id (s ∷ ss) = if s.id == id then some s else find_stream id ss

unfoldable pub get_stream : Config → ℕ → Option Stream
unfolding find_stream
get_stream c id = find_stream id c.streams

-- `epg_configs.iter().find_map(...)` of `epg_start`
unfoldable pub find_epg : ℕ → List EpgConfig → Option EpgConfig
find_epg id [] = none
find_epg id (e ∷ es) = if e.id == id then some e else find_epg id es

abbrev pub allowed_task_types : List String
allowed_task_types = "udp" ∷ "rtp" ∷ "http" ∷ "ffmpeg" ∷ "hls" ∷ "unix" ∷ []

-- `.iter().any(|allowed| *allowed == task_type)`
unfoldable pub any_eq : String → List String → Bool
any_eq t [] = false
any_eq t (a ∷ as') = if str_eq a t then true else any_eq t as'

unfoldable pub is_task_type_allowed : String → Bool
unfolding any_eq
is_task_type_allowed t = any_eq t allowed_task_types

-- What `validate_config` refuses; the source formats it into a message.
pub data Refusal : Type 0 where
  stream_type : (stream : ℕ) (task_type : String) → Refusal
  output_type : (output stream : ℕ) (task_type : String) → Refusal

unfoldable pub validate_outputs : ℕ → List Output → Option Refusal
validate_outputs stream [] = none
validate_outputs stream (o ∷ os) =
    if is_task_type_allowed o.task_type
    then validate_outputs stream os
    else some (output_type o.id stream o.task_type)

unfoldable pub validate_streams : List Stream → Option Refusal
unfolding validate_outputs
validate_streams [] = none
validate_streams (s ∷ ss) =
    let rest = validate_streams ss in
    if is_task_type_allowed s.task_type
    then elim (validate_outputs s.id s.outputs) [ none ↦ rest | some r ↦ some r ]
    else some (stream_type s.id s.task_type)

-- `none` is `Ok(())`.
unfoldable pub validate_config : Config → Option Refusal
unfolding validate_streams
validate_config c = validate_streams c.streams

-- `is_forbidden` of src/misc.rs. The crates that read an address and a network, and tell whether
-- the network contains the address, are parameters; `unwrap` of what is none panics.
module _ {Ip Net : Type 0} (parse_ip : String → Option Ip) (parse_net : String → Option Net)
    (covers : Net → Ip → Bool) where
  unfoldable pub forbidden_loop : Ip → List String → Outcome Bool
  forbidden_loop ip [] = ret true
  forbidden_loop ip (net ∷ nets) =
      let rest = forbidden_loop ip nets in
      elim (parse_net net) [ none ↦ panic | some n ↦ if covers n ip then ret false else rest ]

  unfoldable pub is_forbidden : String → List String → Outcome Bool
  unfolding forbidden_loop
  is_forbidden ip [] = ret false
  is_forbidden ip (net ∷ nets) = elim (parse_ip ip) [
    | none ↦ panic
    | some a ↦ forbidden_loop a (net ∷ nets)
  ]
