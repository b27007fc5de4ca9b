-- ===== src/Pes/Es.antt =====
-- src/pes/es.rs and src/pes/pes.rs: what is known of an elementary stream and of a PES packet. The
-- texts for them stand in the module Names.
use mymuxer.Base.{ℕ, Option}

pub record EsUnknown : Type 0 where
  pub stream_type : ℕ

pub record Es2 : Type 0 where
  pub stream_type : ℕ
  pub horizontal_size : Option ℕ
  pub vertical_size : Option ℕ
  pub aspect_ratio : Option ℕ
  pub frame_rate : Option ℕ
  pub bitrate : Option ℕ

pub record Es3 : Type 0 where
  pub stream_type : ℕ
  pub id : Option ℕ
  pub layer : Option ℕ
  pub bit_rate_index : Option ℕ
  pub sampling_frequency : Option ℕ
  pub mode : Option ℕ
  pub mode_extension : Option ℕ
  pub copyright : Option ℕ
  pub original : Option ℕ
  pub emphasis : Option ℕ

pub record Es4 : Type 0 where
  pub stream_type : ℕ
  pub id : Option ℕ
  pub layer : Option ℕ
  pub bit_rate_index : Option ℕ
  pub sampling_frequency : Option ℕ
  pub mode : Option ℕ
  pub mode_extension : Option ℕ
  pub copyright : Option ℕ
  pub original : Option ℕ
  pub emphasis : Option ℕ

pub record Es15 : Type 0 where
  pub stream_type : ℕ
  pub id : Option ℕ
  pub profile : Option ℕ
  pub sampling_frequency : Option ℕ
  pub channel_configuration : Option ℕ
  pub copyright : Option ℕ
  pub original : Option ℕ

pub record Es27 : Type 0 where
  pub stream_type : ℕ
  pub profile_idc : Option ℕ
  pub level_idc : Option ℕ
  pub seq_parameter_set_id : Option ℕ
  pub horizontal_size : Option ℕ
  pub vertical_size : Option ℕ
  pub frame_rate : Option ℕ

pub data Es : Type 0 where
  unknown : EsUnknown → Es
  es2 : Es2 → Es
  es3 : Es3 → Es
  es4 : Es4 → Es
  es15 : Es15 → Es
  es27 : Es27 → Es

pub record Pes : Type 0 where
  pub stream_id : ℕ
  pub scrabling : ℕ
  pub priority : ℕ
  pub alignment_indicator : ℕ
  pub copyright : ℕ
  pub original_or_copy : ℕ
  pub flags_pts_dts : ℕ
  pub flag_escr : ℕ
  pub flag_es_rate : ℕ
  pub flag_dsm_trick_mode : ℕ
  pub flag_additional_copy_info : ℕ
  pub flag_crc : ℕ
  pub flag_extension : ℕ
  pub es : Option Es
