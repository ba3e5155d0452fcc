-- ===== src/Segment/Tests.antt =====
-- The descriptors of the 32-bit code and data segments, and the theorems at them.
use ps5_homebrew_lab.Common.{◌≡◌, refl, arith}
use ps5_homebrew_lab.Segment.{Fields, encode, decode, compat32_code, compat32_data}
use ps5_homebrew_lab.Segment.Laws.{IsEncodable, decode-encode, encode-decode}

code_run : compat32_code ≡ 0x00cf_fb00_0000_ffff
unfolding compat32_code encode
code_run = refl

data_run : compat32_data ≡ 0x00cf_f300_0000_ffff
unfolding compat32_data encode
data_run = refl

abbrev thread_block : Fields
thread_block = record {
  base = 0x7ffd_e000;
  limit = 4095;
  type = 19;
  dpl = 3;
  present = 5;
  long_mode = 0;
  default32 = 1;
  page_granular = 0;
}

abbrev returned : Fields
returned = record thread_block { present = 1 }

decode-encode_example : decode (encode thread_block) ≡ returned
decode-encode_example = decode-encode thread_block (record {
  base_word = omega arith;
  limit_fits = omega arith;
  type_fits = omega arith;
  dpl_fits = omega arith;
})

encode-decode_example :
    (encode (decode 0x00cf_fb00_0000_ffff) ≡ 0x00cf_fb00_0000_ffff)
    × IsEncodable (decode 0x00cf_fb00_0000_ffff)
encode-decode_example = encode-decode 0x00cf_fb00_0000_ffff (omega arith) (omega arith)
