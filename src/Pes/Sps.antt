-- ===== src/Pes/Sps.antt =====
-- src/pes/es_parsers.rs: `parse` of EsParser27, the fields of a sequence parameter set.
pub mod Fields
pub mod Written
use mymuxer.Base.{
  ℕ, zero, suc, ◌+◌, ◌-◌, ◌*◌, ◌/◌, ◌%◌, ◌^◌, List, [], ◌∷◌, Bool, true, false, ◌||◌, not, Option,
  none, some, ltb, leb, ◌==◌, if◌then◌else◌, length, Outcome, ret, panic,
}
use mymuxer.Base.Int.{ℤ, pos, negsuc, pos_part, neg_part, sub_ℕ, quot}
use mymuxer.Pes.Golomb as Golomb
use mymuxer.Pes.Golomb.{BitReader}
use mymuxer.Pes.Es.{Es, Es27, es27}
use mymuxer.Pes.Nal.{find_sps, ebsp_to_rbsp}
use mymuxer.Pes.Reader.{
  Reads, ◌>>=◌, ◌>>◌, pure, bits, to_i32, wrap_i32, add_i32, rem, negated, is_zero, ue, read_se,
  if_set,
}

-- `crop_unit * offset` taken off a size, on `u32`.
unfoldable pub cropped : (size unit offset : ℕ) → ℕ
cropped size unit offset = (size % 2 ^ 32 + 2 ^ 32 - unit * offset % 2 ^ 32) % 2 ^ 32

-- The chroma format with what follows from it: `chroma_array_type`, `sub_width_c`, `sub_height_c`.
pub record Chroma : Type 0 where
  pub array_type : ℕ
  pub sub_width : ℕ
  pub sub_height : ℕ

unfoldable pub sub_sizes : ℕ → ℕ × ℕ
sub_sizes format =
    if format == 1
    then (2, 2)
    else if format == 2
    then (2, 1)
    else if format == 3
    then (1, 1)
    else (0, 0)

-- `matches!(profile_idc, 100 | 110 | 122 | 244 | 44)`
unfoldable pub is_high : ℕ → Bool
is_high profile_idc =
    profile_idc == 100
    || (profile_idc == 110 || (profile_idc == 122 || (profile_idc == 244 || (profile_idc == 44))))

abbrev pub default_chroma : Chroma
default_chroma = record { array_type = 1; sub_width = 2; sub_height = 2 }

-- `Es27::new`
abbrev pub no_fields : Es27
no_fields = record {
  stream_type = 27;
  profile_idc = none;
  level_idc = none;
  seq_parameter_set_id = none;
  horizontal_size = none;
  vertical_size = none;
  frame_rate = none;
}

unfoldable pub positive : ℕ → Option ℕ
positive zero = none
positive (suc n) = some (suc n)

-- The sizes, on `u32`.
unfoldable pub with_sizes :
    Chroma → (width_minus1 height_minus1 frame_mbs_only_flag right bottom : ℕ) → Es27 → Es27
unfolding cropped positive
with_sizes chroma width_minus1 height_minus1 frame_mbs_only_flag right bottom es =
    let fields = 2 - frame_mbs_only_flag in
    let unit_x = if chroma.array_type == 0 then 1 else chroma.sub_width in
    let unit_y = if chroma.array_type == 0 then fields else chroma.sub_height * fields in
    record es {
      horizontal_size = positive (cropped ((width_minus1 + 1) * 16) unit_x right);
      vertical_size = positive (cropped (fields * (height_minus1 + 1) * 16) unit_y bottom);
    }

module _ (fuel : ℕ) where
  -- The entries of one scaling list.
  unfoldable pub scaling_list : (count : ℕ) (last_scale next_scale : ℤ) → Reads (Unit {0})
  unfolding read_se rem is_zero
  scaling_list zero last_scale next_scale = pure tt
  scaling_list (suc count) last_scale next_scale = do
    next ← if is_zero next_scale then pure next_scale else (do
      delta_scale ← read_se fuel
      pure (rem (add_i32 (add_i32 last_scale delta_scale) (pos 256)) 256))
    scaling_list count (if is_zero next then last_scale else next) next

  -- The lists from the `i`-th on.
  unfoldable pub scaling_lists : (left i : ℕ) → Reads (Unit {0})
  unfolding scaling_list bits
  scaling_lists zero i = pure tt
  scaling_lists (suc left) i = do
    seq_scaling_list_present_flag ← bits 1
    _ ←
        if seq_scaling_list_present_flag == 1
        then scaling_list (if ltb i 6 then 16 else 64) (pos 8) (pos 8)
        else pure tt
    scaling_lists left (i + 1)

  -- The fields of the high profiles. Where the format is 4:4:4, `chroma_array_type` is set to 0
  -- without the flag of separate planes, and the sizes are set to 0 with it.
  unfoldable pub high_profile : Reads Chroma
  unfolding ue bits if_set scaling_lists sub_sizes
  high_profile = do
    chroma_format_idc ← ue fuel
    separate_colour_plane_flag ← if chroma_format_idc == 3 then bits 1 else pure 1
    let sizes = sub_sizes chroma_format_idc
    let chroma : Chroma = record {
      array_type = if separate_colour_plane_flag == 1 then 1 else 0;
      sub_width =
          if chroma_format_idc == 3
          then if separate_colour_plane_flag == 1 then 0 else sizes.0
          else sizes.0;
      sub_height =
          if chroma_format_idc == 3
          then if separate_colour_plane_flag == 1 then 0 else sizes.1
          else sizes.1;
    }
    _ ← ue fuel
    _ ← ue fuel
    _ ← bits 1
    seq_scaling_matrix_present_flag ← bits 1
    _ ←
        if seq_scaling_matrix_present_flag == 1
        then scaling_lists (if chroma_format_idc == 3 then 12 else 8) 0
        else pure tt
    pure chroma

  -- Numbers that are read and not used.
  unfoldable pub skip_se : ℕ → Reads (Unit {0})
  unfolding read_se
  skip_se zero = pure tt
  skip_se (suc count) = do _ ← read_se fuel; skip_se count

  -- The fields of the order of pictures.
  unfoldable pub picture_order : Reads (Unit {0})
  unfolding ue bits skip_se
  picture_order = do
    pic_order_cnt_type ← ue fuel
    if pic_order_cnt_type == 0
        then (do _ ← ue fuel; pure tt)
        else if pic_order_cnt_type == 1
        then (do
          _ ← bits 1
          _ ← read_se fuel
          _ ← read_se fuel
          num_ref_frames_in_pic_order_cnt_cycle ← ue fuel
          skip_se num_ref_frames_in_pic_order_cnt_cycle)
        else pure tt

  -- `(time_scale / (2.0 * num_units_in_tick)).round()`: the quotient of words of 32 bits is further
  -- from a half than an `f64` rounds, unless it is one.
  unfoldable pub rounded_rate : (num_units_in_tick time_scale : ℕ) → Option ℕ
  rounded_rate num_units_in_tick time_scale =
      if num_units_in_tick == 0 || (time_scale == 0)
      then none
      else some ((time_scale + num_units_in_tick) / (2 * num_units_in_tick))

  -- The usability information, of which the frame rate is kept.
  unfoldable pub vui : Reads (Option ℕ)
  unfolding ue bits if_set rounded_rate
  vui = do
    aspect_ratio_info_present_flag ← bits 1
    aspect_ratio_idc ← if_set aspect_ratio_info_present_flag (bits 8)
    _ ← if aspect_ratio_idc == 255 then (do _ ← bits 16; bits 16) else pure 0
    overscan_info_present_flag ← bits 1
    _ ← if_set overscan_info_present_flag (bits 1)
    video_signal_type_present_flag ← bits 1
    _ ← if_set video_signal_type_present_flag (do
      _ ← bits 3
      _ ← bits 1
      colour_description_present_flag ← bits 1
      if_set colour_description_present_flag (do _ ← bits 8; _ ← bits 8; bits 8))
    chroma_loc_info_present_flag ← bits 1
    _ ← if_set chroma_loc_info_present_flag (do _ ← ue fuel; (ue fuel))
    timing_info_present_flag ← bits 1
    if timing_info_present_flag == 1
        then (do
          num_units_in_tick ← bits 32
          time_scale ← bits 32
          _ ← bits 1
          pure (rounded_rate num_units_in_tick time_scale))
        else pure none

  unfoldable pub fields : Es27 → (profile_idc : ℕ) → Reads Es27
  unfolding ue bits if_set high_profile picture_order vui with_sizes
  fields es profile_idc = do
    chroma ← if is_high profile_idc then high_profile else pure default_chroma
    _ ← ue fuel
    picture_order
    _ ← ue fuel
    _ ← bits 1
    pic_width_in_mbs_minus1 ← ue fuel
    pic_height_in_map_units_minus1 ← ue fuel
    frame_mbs_only_flag ← bits 1
    _ ← if frame_mbs_only_flag == 0 then bits 1 else pure 0
    _ ← bits 1
    frame_cropping_flag ← bits 1
    _ ← if_set frame_cropping_flag (ue fuel)
    frame_crop_right_offset ← if_set frame_cropping_flag (ue fuel)
    _ ← if_set frame_cropping_flag (ue fuel)
    frame_crop_bottom_offset ← if_set frame_cropping_flag (ue fuel)
    vui_parameters_present_flag ← bits 1
    frame_rate ← if vui_parameters_present_flag == 1 then vui else pure none
    pure (
        with_sizes chroma pic_width_in_mbs_minus1 pic_height_in_map_units_minus1 frame_mbs_only_flag
          frame_crop_right_offset frame_crop_bottom_offset (record es { frame_rate = frame_rate }))

  -- The set without its start code and header byte, and without escapes.
  unfoldable pub parse_rbsp : Reads Es27
  unfolding ue bits fields
  parse_rbsp = do
    profile_idc ← bits 8
    _ ← bits 8
    level_idc ← bits 8
    seq_parameter_set_id ← ue fuel
    fields
        (record no_fields {
          profile_idc = some profile_idc;
          level_idc = some level_idc;
          seq_parameter_set_id = some seq_parameter_set_id;
        })
        profile_idc

  -- `parse`; what it answers, under the fuel.
  unfoldable pub parse : List ℕ → Outcome (Option (Option Es))
  unfolding parse_rbsp
  parse bytes = elim (find_sps bytes) [
    | panic ↦ panic
    | ret none ↦ ret (some none)
    | ret (some ebsp) ↦
        let rbsp = ebsp_to_rbsp ebsp in
        if ltb (length rbsp) 3
        then ret (some (some (es27 no_fields)))
        else elim (parse_rbsp (Golomb.new rbsp)) [
          | none ↦ ret none
          | some (r, es) ↦ ret (some (some (es27 es)))
        ]
  ]
