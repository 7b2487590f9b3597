-- ===== src/Directory/Transmit/Whole.antt =====
-- A datagram that the socket takes in parts.
use general_tools.Common.{ℕ, ◌+◌, true, false, none, List, [], ◌∷◌, ◌++◌, Text}
use general_tools.BufferPool.{BufferPool}
use general_tools.BufferPool
use general_tools.Directory.{Directory, datagram}
use general_tools.Directory.Transmit.{Transmission}

abbrev pub total : List ℕ → ℕ
total [] = 0
total (n ∷ ns) = n + total ns

-- The transmission once the socket has taken all that waits.
abbrev finished : Transmission → Transmission
finished t = record t {
  taken = t.taken ++ t.waiting;
  waiting = [];
  is_over = true;
  pool = (BufferPool.free t.pool t.buffer).0;
  freed = (BufferPool.free t.pool t.buffer).1;
}

-- The first record of a transmission.
abbrev begun : Directory → BufferPool → ℕ → ℕ → Text → Transmission
begun d pool os command args =
    let (buffer, left) = BufferPool.malloc pool os in
    record {
      taken = [];
      waiting = datagram d.my_guid command args;
      is_over = false;
      buffer = buffer;
      pool = left;
      freed = none;
    }
