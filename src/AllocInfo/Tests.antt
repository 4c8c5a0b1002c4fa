-- ===== src/AllocInfo/Tests.antt =====
-- The summaries at concrete events.
use mem_hawk.Prelude.{◌≡◌, refl, arith, ◌^◌, ◌-◌}
use mem_hawk.AllocInfo.{AllocInfo, zero_summary, add_info, sub_info}
use mem_hawk.AllocInfo.Algebra.{sub_info-add_info}

abbrev block : AllocInfo
block = record { size = 100; offset = 16; trace_id = 7 }

-- A block that another thread allocated leaves a negative size here.
foreign_free : (sub_info zero_summary block).size ≡ 2 ^ 64 - 100
unfolding sub_info
foreign_free = refl

sub_info-add_info_example :
    (sub_info (add_info zero_summary block) block
      ≡ record zero_summary { total_count = 1; total_bytes = 100 })
    × (sub_info (add_info zero_summary block) block ≡ add_info (sub_info zero_summary block) block)
sub_info-add_info_example = sub_info-add_info zero_summary block (omega arith)
