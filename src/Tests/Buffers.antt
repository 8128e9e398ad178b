-- ===== src/Tests/Buffers.antt =====
-- Runs of the ring of bytes.
use cpxy.Base.{◌≡◌, Bytes, some, List, [], ◌∷◌, ◌++◌, arith}
use cpxy.RwBuffer.{RwBuffer, read_buf}
use cpxy.RwBuffer.Moves.{IsValid}
use cpxy.RwBuffer.Fifo.{Op, put_in, take_out, run, run_fifo}

-- Two bytes read, two to be read, none behind them.
abbrev half : RwBuffer
half = record { buf = 1 ∷ 2 ∷ 3 ∷ 4 ∷ []; read_cursor = 2; write_cursor = 4 }

half-IsValid : IsValid half
half-IsValid = record { ordered = omega arith; within = omega arith }

abbrev ops : List Op
ops = put_in (5 ∷ 6 ∷ 7 ∷ []) ∷ take_out 3 ∷ put_in (8 ∷ []) ∷ []

run_fifo_example :
    (i o : Bytes) × (s' : RwBuffer) × (run ops half ≡ some (i, o, s'))
    × IsValid s'
    × (read_buf half ++ i ≡ o ++ read_buf s')
run_fifo_example = run_fifo ops half half-IsValid
