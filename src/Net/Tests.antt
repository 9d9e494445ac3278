-- ===== src/Net/Tests.antt =====
-- Runs of the networking layer, and the theorems at these inputs.
use lite_im.Prelude.{◌≡◌, [], ◌∷◌}
use lite_im.Status.{success, error, invalid_argument}
use lite_im.Protocol.Bytes.{null, bytes}
use lite_im.Net.Buffer.{Buffer, new_buffer, peek}
use lite_im.Net.Buffer.Queue.{IsValid}
use lite_im.Net.Buffer.Refinement.{
  BufferOp, appends, retrieves, retrieves_all, run, queue_run, run-queue_run,
}
use lite_im.Prelude.{List}

-- A buffer of four bytes that has to move its content and then to grow.
abbrev busy : List BufferOp
busy =
    appends (bytes (1 ∷ 2 ∷ 3 ∷ []))
    ∷ retrieves 2
    ∷ appends (bytes (4 ∷ 5 ∷ []))
    ∷ appends (bytes (6 ∷ 7 ∷ []))
    ∷ retrieves 9
    ∷ appends (null 1)
    ∷ []

run-queue_run_example :
    IsValid (run (new_buffer 4) busy).0
    × (peek (run (new_buffer 4) busy).0 ≡ 3 ∷ 4 ∷ 5 ∷ 6 ∷ 7 ∷ [])
    × ((run (new_buffer 4) busy).1
        ≡ success
          ∷ success
          ∷ success
          ∷ success
          ∷ error invalid_argument "buffer retrieve exceeds readable bytes"
          ∷ error invalid_argument "buffer append input is null"
          ∷ [])
unfolding queue_run lite_im.Net.Buffer.Refinement.queue_step
run-queue_run_example = run-queue_run 4 busy
