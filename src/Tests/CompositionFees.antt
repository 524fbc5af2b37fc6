-- ===== src/Tests/CompositionFees.antt =====
-- Examples for the processor of composition fees.
use saros_dlmm_indexer.Base.{◌+◌, ◌*◌, ◌^◌, ◌≡◌, some, length, arith}
use saros_dlmm_indexer.Text.{Text, codes}
use saros_dlmm_indexer.Text.Decimal.{nat_to_text, read_digits}
use saros_dlmm_indexer.CompositionFees.{CompositionFeesEventDecoded, ValuedFees, new_protocol_fees}
use saros_dlmm_indexer.CompositionFees.Stored.{new_protocol_fees_joins}
use saros_dlmm_indexer.Tests.Numbers.{whole_numbers, whole_numbers-IsDouble}
use saros_dlmm_indexer.Tests.Swaps.{worth}

-- 12 and 5 make 125.
new_protocol_fees_joins_example :
    read_digits (new_protocol_fees whole_numbers (nat_to_text 12) 5) 0
    ≡ some (12 * 10 ^ length (nat_to_text 5) + 5)
new_protocol_fees_joins_example =
    new_protocol_fees_joins whole_numbers whole_numbers-IsDouble 12 5 (omega arith)

abbrev sample_event : CompositionFeesEventDecoded
sample_event = record {
  pair = codes "A";
  active_id = 9;
  composition_fees_x = 4;
  composition_fees_y = 3;
  protocol_fees_x = 2;
  protocol_fees_y = 1;
}

abbrev sample_fees : ValuedFees
sample_fees = record {
  composition_x = worth (codes "4");
  composition_y = worth (codes "3");
  protocol_x = worth (codes "2");
  protocol_y = worth (codes "1");
}
