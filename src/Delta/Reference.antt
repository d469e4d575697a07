-- ===== src/Delta/Reference.antt =====
-- A MERGE that meets the interface: the clauses applied in the order of the lists.
use payments_cdc_pipeline.Prelude.{some, refl}
use payments_cdc_pipeline.Delta.{Delta, merged}
use mathlib.Core.List.Permᴰ

abbrev pub plain_delta : Delta
plain_delta = record {
  merge = λ on update_when table staged. some (merged on update_when table staged);
  merge_lem = λ on update_when table staged h.
      (merged on update_when table staged, refl, Permᴰ.refl (merged on update_when table staged));
}
