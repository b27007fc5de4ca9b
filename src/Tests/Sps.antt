-- ===== src/Tests/Sps.antt =====
-- A parameter set: 1920 by 1088, interlaced, cropped to 1080 lines.
use mymuxer.Base.{ℕ, ◌≡◌, refl, arith, List, [], ◌∷◌, some}
use mymuxer.Pes.Golomb as Golomb
use mymuxer.Pes.Sps.{is_high, no_fields, parse_rbsp}
use mymuxer.Pes.Sps.Fields.{answer}
use mymuxer.Pes.Sps.Written.{done, bits, code, parse_rbsp-Written}
use mymuxer.Tests.{are_bytes_lem}

abbrev sps_bytes : List ℕ
sps_bytes = 77 ∷ 0 ∷ 40 ∷ 218 ∷ 1 ∷ 224 ∷ 17 ∷ 31 ∷ 104 ∷ []

parse_rbsp-Written_example :
    answer (parse_rbsp 32 (Golomb.new sps_bytes))
    ≡ some (record no_fields {
      profile_idc = some 77;
      level_idc = some 40;
      seq_parameter_set_id = some 0;
      horizontal_size = some 1920;
      vertical_size = some 1080;
    })
unfolding is_high
parse_rbsp-Written_example =
    parse_rbsp-Written 32 77 0 40 0 0 1 0 1 119 33 (some 0) (some (0, 0, 0, 2)) 1919 1079 sps_bytes
      (are_bytes_lem sps_bytes refl) refl
      (bits 8 77 (omega arith) (omega arith) (omega arith) (
        bits 8 0 (omega arith) (omega arith) (omega arith) (
          bits 8 40 (omega arith) (omega arith) (omega arith) (
            code 0 0 (omega arith) (omega arith) (omega arith) (omega arith) (
              code 0 0 (omega arith) (omega arith) (omega arith) (omega arith) (
                code 1 2 (omega arith) (omega arith) (omega arith) (omega arith) (
                  code 1 1 (omega arith) (omega arith) (omega arith) (omega arith) (
                    bits 1 0 (omega arith) (omega arith) (omega arith) (
                      code 6 119 (omega arith) (omega arith) (omega arith) (omega arith) (
                        code 5 33 (omega arith) (omega arith) (omega arith) (omega arith) (
                          bits 1 0 (omega arith) (omega arith) (omega arith) (
                            bits 1 0 (omega arith) (omega arith) (omega arith) (
                              bits 1 1 (omega arith) (omega arith) (omega arith) (
                                bits 1 1 (omega arith) (omega arith) (omega arith) (
                                  code 0 0 (omega arith) (omega arith) (omega arith) (omega arith) (
                                    code 0 0 (omega arith) (omega arith) (omega arith) (omega arith)
                                      (code 0 0 (omega arith) (omega arith) (omega arith)
                                        (omega arith)
                                        (code 1 2 (omega arith) (omega arith) (omega arith)
                                          (omega arith)
                                          (bits 1 0 (omega arith) (omega arith) (omega arith)
                                            (done {c = 4} {w = 8} (omega arith)))))))))))))))))))))
      refl (omega arith) refl (omega arith)
