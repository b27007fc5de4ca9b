-- ===== src/Pes/Names.antt =====
-- src/pes/es.rs: the names of what the fields of a stream stand for, and the descriptions of audio.
use Prim.Native.String.{String, ◌++◌}
use mymuxer.Base.{ℕ, Option, none, some, ◌==◌, if◌then◌else◌}
use mymuxer.Pes.Es.{Es3, Es4, Es15}

unfoldable pub aspect_ratio_str : Option ℕ → String
aspect_ratio_str none = "None"
aspect_ratio_str (some aspect_ratio) =
    if aspect_ratio == 2
    then "4:3"
    else if aspect_ratio == 3
    then "16:9"
    else if aspect_ratio == 4
    then "2.21:1"
    else "None"

unfoldable pub frame_rate_str : Option ℕ → String
frame_rate_str none = "None"
frame_rate_str (some frame_rate) =
    if frame_rate == 3
    then "25"
    else if frame_rate == 6
    then "50"
    else if frame_rate == 1
    then "24000/1001"
    else if frame_rate == 2
    then "24"
    else if frame_rate == 4
    then "30000/1001"
    else if frame_rate == 5
    then "30"
    else if frame_rate == 7
    then "60000/1001"
    else if frame_rate == 8
    then "60"
    else "None"

unfoldable pub layer_str_es3 : Option ℕ → String
layer_str_es3 none = "None"
layer_str_es3 (some layer) =
    if layer == 3
    then "Layer I"
    else if layer == 2
    then "Layer II"
    else if layer == 1
    then "Layer III"
    else "None"

unfoldable pub mode_str_es3 : Option ℕ → String
mode_str_es3 none = "None"
mode_str_es3 (some mode) =
    if mode == 0
    then "stereo"
    else if mode == 1
    then "joint_stereo (intensity_stereo and/or ms_stereo)"
    else if mode == 2
    then "dual_channel"
    else if mode == 3
    then "single_channel"
    else "None"

unfoldable pub sampling_freq_es3 : Option ℕ → String
sampling_freq_es3 none = "None"
sampling_freq_es3 (some sampling_frequency) =
    if sampling_frequency == 0
    then "44.1kHz"
    else if sampling_frequency == 1
    then "48kHz"
    else if sampling_frequency == 2
    then "32kHz"
    else "None"

-- A bit rate of one of the three layers; no other layer has one.
unfoldable pub by_layer : ℕ → (first second third : String) → Option String
by_layer layer first second third =
    if layer == 3
    then some first
    else if layer == 2
    then some second
    else if layer == 1
    then some third
    else none

unfoldable pub bit_rate_es3 : (bit_rate_index layer : ℕ) → Option String
unfolding by_layer
bit_rate_es3 bit_rate_index layer =
    if bit_rate_index == 1
    then by_layer layer "32 kbit/s" "32 kbit/s" "32 kbit/s"
    else if bit_rate_index == 2
    then by_layer layer "64 kbit/s" "48 kbit/s" "40 kbit/s"
    else if bit_rate_index == 3
    then by_layer layer "96 kbit/s" "56 kbit/s" "48 kbit/s"
    else if bit_rate_index == 4
    then by_layer layer "128 kbit/s" "64 kbit/s" "56 kbit/s"
    else if bit_rate_index == 5
    then by_layer layer "160 kbit/s" "80 kbit/s" "64 kbit/s"
    else if bit_rate_index == 6
    then by_layer layer "192 kbit/s" "96 kbit/s" "80 kbit/s"
    else if bit_rate_index == 7
    then by_layer layer "224 kbit/s" "112 kbit/s" "96 kbit/s"
    else if bit_rate_index == 8
    then by_layer layer "256 kbit/s" "128 kbit/s" "112 kbit/s"
    else if bit_rate_index == 9
    then by_layer layer "288 kbit/s" "160 kbit/s" "128 kbit/s"
    else if bit_rate_index == 10
    then by_layer layer "320 kbit/s" "192 kbit/s" "160 kbit/s"
    else if bit_rate_index == 11
    then by_layer layer "352 kbit/s" "224 kbit/s" "192 kbit/s"
    else if bit_rate_index == 12
    then by_layer layer "384 kbit/s" "256 kbit/s" "224 kbit/s"
    else if bit_rate_index == 13
    then by_layer layer "416 kbit/s" "320 kbit/s" "256 kbit/s"
    else if bit_rate_index == 14
    then by_layer layer "448 kbit/s" "384 kbit/s" "320 kbit/s"
    else none

unfoldable pub layer_str_es4 : Option ℕ → String
layer_str_es4 none = "None"
layer_str_es4 (some layer) =
    if layer == 3
    then "Layer I"
    else if layer == 2
    then "Layer II"
    else if layer == 1
    then "Layer III"
    else "None"

unfoldable pub mode_str_es4 : Option ℕ → String
mode_str_es4 none = "None"
mode_str_es4 (some mode) =
    if mode == 0
    then "stereo"
    else if mode == 1
    then "joint_stereo (intensity_stereo and/or ms_stereo)"
    else if mode == 2
    then "dual_channel"
    else if mode == 3
    then "mono"
    else "None"

unfoldable pub sampling_freq_es4 : Option ℕ → String
sampling_freq_es4 none = "None"
sampling_freq_es4 (some sampling_frequency) =
    if sampling_frequency == 0
    then "22.5kHz"
    else if sampling_frequency == 1
    then "24kHz"
    else if sampling_frequency == 2
    then "16kHz"
    else "None"

unfoldable pub bit_rate_es4 : (bit_rate_index layer : ℕ) → Option String
unfolding by_layer
bit_rate_es4 bit_rate_index layer =
    if bit_rate_index == 1
    then by_layer layer "32 kbit/s" "8 kbit/s" "8 kbit/s"
    else if bit_rate_index == 2
    then by_layer layer "48 kbit/s" "16 kbit/s" "16 kbit/s"
    else if bit_rate_index == 3
    then by_layer layer "56 kbit/s" "24 kbit/s" "24 kbit/s"
    else if bit_rate_index == 4
    then by_layer layer "64 kbit/s" "32 kbit/s" "32 kbit/s"
    else if bit_rate_index == 5
    then by_layer layer "80 kbit/s" "40 kbit/s" "40 kbit/s"
    else if bit_rate_index == 6
    then by_layer layer "96 kbit/s" "48 kbit/s" "48 kbit/s"
    else if bit_rate_index == 7
    then by_layer layer "112 kbit/s" "56 kbit/s" "56 kbit/s"
    else if bit_rate_index == 8
    then by_layer layer "128 kbit/s" "64 kbit/s" "64 kbit/s"
    else if bit_rate_index == 9
    then by_layer layer "144 kbit/s" "80 kbit/s" "80 kbit/s"
    else if bit_rate_index == 10
    then by_layer layer "160 kbit/s" "96 kbit/s" "96 kbit/s"
    else if bit_rate_index == 11
    then by_layer layer "176 kbit/s" "112 kbit/s" "112 kbit/s"
    else if bit_rate_index == 12
    then by_layer layer "192 kbit/s" "128 kbit/s" "128 kbit/s"
    else if bit_rate_index == 13
    then by_layer layer "224 kbit/s" "144 kbit/s" "144 kbit/s"
    else if bit_rate_index == 14
    then by_layer layer "256 kbit/s" "160 kbit/s" "160 kbit/s"
    else none

unfoldable pub profile_es15 : Option ℕ → String
profile_es15 none = "None"
profile_es15 (some profile) =
    if profile == 0
    then "Main"
    else if profile == 1
    then "LC"
    else if profile == 2
    then "SSR"
    else "None"

unfoldable pub sampling_freq_es15 : Option ℕ → String
sampling_freq_es15 none = "None"
sampling_freq_es15 (some sampling_frequency) =
    if sampling_frequency == 0
    then "96KHz"
    else if sampling_frequency == 1
    then "88.2KHz"
    else if sampling_frequency == 2
    then "64KHz"
    else if sampling_frequency == 3
    then "48KHz"
    else if sampling_frequency == 4
    then "44.1KHz"
    else if sampling_frequency == 5
    then "32KHz"
    else if sampling_frequency == 6
    then "24KHz"
    else if sampling_frequency == 7
    then "22.05KHz"
    else if sampling_frequency == 8
    then "16KHz"
    else if sampling_frequency == 9
    then "12KHz"
    else if sampling_frequency == 10
    then "11.025KHz"
    else if sampling_frequency == 11
    then "8KHz"
    else "None"

unfoldable pub channel_configuration_es15 : Option ℕ → String
channel_configuration_es15 none = "Unknown"
channel_configuration_es15 (some channel_configuration) =
    if channel_configuration == 1
    then "Mono"
    else if channel_configuration == 2
    then "Stereo"
    else if channel_configuration == 3
    then "3.0"
    else if channel_configuration == 4
    then "4.0"
    else if channel_configuration == 5
    then "5.0"
    else if channel_configuration == 6
    then "5.1 Surround"
    else if channel_configuration == 7
    then "7.1 Surround"
    else "Unknown"

unfoldable pub profile_es27 : Option ℕ → String
profile_es27 none = "None"
profile_es27 (some profile_idc) =
    if profile_idc == 66
    then "Baseline"
    else if profile_idc == 77
    then "Main"
    else if profile_idc == 88
    then "Extended"
    else if profile_idc == 100
    then "High"
    else if profile_idc == 110
    then "Hight 10"
    else if profile_idc == 122
    then "High 4:2:2"
    else if profile_idc == 244
    then "High 4:4:4 Predictive"
    else if profile_idc == 44
    then "CAVLC 4:4:4 Intra"
    else "None"

-- `unwrap_or_else(|| "0".into())` on the bit rate of a known index and layer.
unfoldable pub bit_rate_or_zero :
    (ℕ → ℕ → Option String) → (bit_rate_index layer : Option ℕ) → String
bit_rate_or_zero rate (some b) (some l) = elim (rate b l) [ none ↦ "0" | some text ↦ text ]
bit_rate_or_zero rate _ _ = "0"

-- `format!("Audio: mp2 ({}) {}, {}, {}", ...)`
unfoldable pub mp2 : (layer mode sf br : String) → String
mp2 layer mode sf br =
    "Audio: mp2 (" ++ (layer ++ (") " ++ (mode ++ (", " ++ (sf ++ (", " ++ br))))))

unfoldable pub description_es3 : Es3 → String
unfolding mp2 bit_rate_or_zero bit_rate_es3 layer_str_es3 mode_str_es3 sampling_freq_es3
description_es3 e =
    mp2 (layer_str_es3 e.layer) (mode_str_es3 e.mode) (sampling_freq_es3 e.sampling_frequency)
      (bit_rate_or_zero bit_rate_es3 e.bit_rate_index e.layer)

unfoldable pub description_es4 : Es4 → String
unfolding mp2 bit_rate_or_zero bit_rate_es4 layer_str_es4 mode_str_es4 sampling_freq_es4
description_es4 e =
    mp2 (layer_str_es4 e.layer) (mode_str_es4 e.mode) (sampling_freq_es4 e.sampling_frequency)
      (bit_rate_or_zero bit_rate_es4 e.bit_rate_index e.layer)

unfoldable pub description_es15 : Es15 → String
unfolding profile_es15 channel_configuration_es15 sampling_freq_es15
description_es15 e =
    "Audio aac ("
    ++ (profile_es15 e.profile
        ++ ("), "
            ++ (channel_configuration_es15 e.channel_configuration
                ++ (", " ++ sampling_freq_es15 e.sampling_frequency))))
