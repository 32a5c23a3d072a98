-- ===== src/Pipe/Tests.antt =====
-- The theorems on pipes at a new pipe.
use salern_os_kernel.Prelude.{◌+◌, ◌≡◌, refl, true, false, List, [], ◌∷◌, ◌++◌, arith}
use salern_os_kernel.Errno.{success}
use salern_os_kernel.Mem.{Memory}
use salern_os_kernel.RingBuffer.{avail_read}
use salern_os_kernel.RingBuffer.Queue.{span}
use salern_os_kernel.Pipe.{
  Pipe, diff, av_space, Wake, Outcome, new_pipe, wait_while, com_fs_pipefs_write,
  com_fs_pipefs_read,
}
use salern_os_kernel.Pipe.Bytes.{IsPipe, contents}
use salern_os_kernel.Pipe.Transfer.{AreFair, IsAtomic, com_fs_pipefs_write_lem}
use salern_os_kernel.Pipe.Roundtrip.{com_fs_pipefs_read-com_fs_pipefs_write}
use salern_os_kernel.Pipe.Ends.{IsEnded, com_fs_pipefs_read-com_fs_pipefs_write_ends}

abbrev zeros : Memory
zeros i = 0

abbrev letters : Memory
letters i = 97 + i

abbrev fresh_pipe : Pipe
fresh_pipe = new_pipe zeros

fresh_pipe-IsPipe : IsPipe fresh_pipe
unfolding avail_read
fresh_pipe-IsPipe = record {
  small = omega arith;
  capacity = refl;
  write_word = omega arith;
  read_word = omega arith;
  fits = omega arith;
}

-- A wake by a signal.
abbrev signals : List Wake
signals = record { others = λ p. p; signal = true } ∷ []

signals-AreFair : AreFair signals
signals-AreFair = ((λ p v. v), tt)

-- The buffer is full and the read end is closed: the writer sleeps, and no wake but a signal's helps.
abbrev full_pipe : Pipe
full_pipe = record { buf = zeros; read = 0; write = 4096; read_end = false; write_end = true }

full_run :
    com_fs_pipefs_write letters 1 (record { others = λ p. p; signal = false } ∷ []) full_pipe
    ≡ Outcome.asleep full_pipe
unfolding com_fs_pipefs_write wait_while av_space
full_run = refl

com_fs_pipefs_write_lem_example :
    IsAtomic letters 3 signals fresh_pipe (com_fs_pipefs_write letters 3 signals fresh_pipe)
com_fs_pipefs_write_lem_example =
    com_fs_pipefs_write_lem letters 3 signals fresh_pipe (omega arith) (omega arith)
      fresh_pipe-IsPipe signals-AreFair

com_fs_pipefs_read-com_fs_pipefs_write_example :
    (p1 : Pipe) × (dst' : Memory) × (p2 : Pipe) × (com_fs_pipefs_write letters 3 signals fresh_pipe
      ≡ Outcome.done success 3 letters p1)
    × (com_fs_pipefs_read zeros (diff fresh_pipe + 3) [] p1
        ≡ Outcome.done success (diff fresh_pipe + 3) dst' p2)
    × (span dst' 0 (diff fresh_pipe + 3) ≡ contents fresh_pipe ++ span letters 0 3)
    × (contents p2 ≡ [])
    × IsPipe p2
unfolding av_space
com_fs_pipefs_read-com_fs_pipefs_write_example =
    com_fs_pipefs_read-com_fs_pipefs_write letters zeros 3 signals [] fresh_pipe (omega arith)
      (omega arith) fresh_pipe-IsPipe

com_fs_pipefs_read-com_fs_pipefs_write_ends_example :
    IsEnded 5000 (com_fs_pipefs_read letters 5000 signals fresh_pipe)
    × IsEnded 5000 (com_fs_pipefs_write letters 5000 signals fresh_pipe)
com_fs_pipefs_read-com_fs_pipefs_write_ends_example =
    com_fs_pipefs_read-com_fs_pipefs_write_ends letters 5000 signals fresh_pipe fresh_pipe-IsPipe
      signals-AreFair
