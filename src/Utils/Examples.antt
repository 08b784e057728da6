-- ===== src/Utils/Examples.antt =====
-- Numbers on which the theorems about utils are applied.
use pole.Prelude.{arith, returned, panicked, ◌≡◌}
use pole.Discovery.Model.{decimal}
use pole.Utils.Integers.{
  parse_to_int8, parse_to_int16, parse_to_int32, parse_to_uint8, parse_to_uint16, parse_to_uint32,
}
use pole.Utils.Integers.Widths.{parse_to_int8-parse_to_uint8}

parse_to_int8-parse_to_uint8_example :
    ((parse_to_int8 (decimal 20 300) ≡ returned 44) × (parse_to_uint8 (decimal 20 300) ≡ panicked))
    × ((parse_to_int16 (decimal 20 300) ≡ returned 300)
        × (parse_to_uint16 (decimal 20 300) ≡ returned 300))
    × ((parse_to_int32 (decimal 20 300) ≡ returned 300)
        × (parse_to_uint32 (decimal 20 300) ≡ returned 300))
parse_to_int8-parse_to_uint8_example = parse_to_int8-parse_to_uint8 300 (omega arith)
