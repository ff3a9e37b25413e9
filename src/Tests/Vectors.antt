-- ===== src/Tests/Vectors.antt =====
-- bit_vector.c at concrete inputs.
use cs165db.Prelude.{◌≡◌, refl, [], ◌∷◌, arith}
use cs165db.Run.{fault, Returns}
use cs165db.BitVector.{BitVector, mark_bv_by_range}
use cs165db.BitVector.View.{IsShaped}
use cs165db.BitVector.Range.{RangeMarked, mark_bv_by_range-RangeMarked, mark_bv_by_range-fault}

-- Forty bits, of which bit 2 is set.
abbrev forty_bits : BitVector
forty_bits = record { size = 40; count = 1; vec = 4 ∷ 0 ∷ [] }

forty_bits-IsShaped : IsShaped forty_bits
forty_bits-IsShaped = record { long = omega arith; small = omega arith }

mark_bv_by_range-RangeMarked_example :
    Returns (mark_bv_by_range forty_bits 5 34) (RangeMarked forty_bits 5 34)
mark_bv_by_range-RangeMarked_example =
    mark_bv_by_range-RangeMarked forty_bits 5 34 forty_bits-IsShaped (omega arith) (omega arith)
      (omega arith)

mark_bv_by_range-fault_example : mark_bv_by_range forty_bits 5 31 ≡ fault
mark_bv_by_range-fault_example =
    mark_bv_by_range-fault forty_bits 5 31 forty_bits-IsShaped (omega arith) (omega arith) refl
