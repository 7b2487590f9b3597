-- ===== src/Directory/Transmit.antt =====
-- `send` and `_send` (a17/dispatch/directory.cpp): a datagram in a buffer of the pool, on its way to
-- the socket. The completions of the socket are given as a list: the number of bytes it took, or an
-- error. `malloc` stands for what the pool's own fallback returns.
pub mod Whole
mod Tests
use general_tools.Common.{
  ℕ, zero, suc, ◌+◌, ◌-◌, ◌≤◌, ◌<◌, ◌≡◌, ◌≢◌, refl, ap, sym, ◌∙◌, Bool, true, false, Option, none,
  some, List, [], ◌∷◌, ◌++◌, length, is_empty, take, drop, if◌then◌else◌, ltb, ◌==◌, Text, arith,
  Bool-cases, inl, inr, append_assoc, append-nil, length-drop, length-take, take-append-drop,
}
use general_tools.BufferPool.{BufferPool}
use general_tools.BufferPool
use general_tools.Wire.{event_buffer_size, dispatch, space, until_nul}
use general_tools.Directory.{Directory}

-- A completion of `async_send_to`: an error, or the number of bytes sent.
pub data Completion : Type 0 where
  fails : Completion
  takes : ℕ → Completion

-- A transmission: what the socket has taken, what it is asked to take, the pool, and what the pool
-- hands to the system's `free`. It is over when the buffer is freed or a send has failed.
pub record Transmission : Type 0 where
  pub taken : List ℕ
  pub waiting : List ℕ
  pub is_over : Bool
  pub buffer : ℕ
  pub pool : BufferPool
  pub freed : Option ℕ

-- What `sprintf` formats: of the guid and the arguments the part up to a NUL.
unfoldable pub formatted : Text → ℕ → Text → Text
formatted guid command args =
    dispatch
    ++ (until_nul guid
        ++ (space ∷ command ∷ (if is_empty args then [] else space ∷ until_nul args)))

-- `send`, up to the first `async_send_to`. Text that with its NUL is longer than the buffer of the pool
-- is written behind the buffer: then the behaviour is undefined, and there is no result.
unfoldable pub send : Directory → BufferPool → ℕ → ℕ → Text → Option Transmission
unfolding formatted
send d pool os command args =
    let (buffer, pool') = BufferPool.malloc pool os in
    let text = formatted d.my_guid command args in
    if ltb (length text) event_buffer_size
    then some (record {
      taken = [];
      waiting = text;
      is_over = false;
      buffer = buffer;
      pool = pool';
      freed = none;
    })
    else none

-- The handler in `_send`.
unfoldable pub on_sent : Transmission → Completion → Transmission
on_sent t fails = record t { is_over = true }
on_sent t (takes bytes) =
    let (pool', out) = BufferPool.free t.pool t.buffer in
    let taken = t.taken ++ take bytes t.waiting in
    if ltb bytes (length t.waiting)
    then record t { taken = taken; waiting = drop bytes t.waiting }
    else record t { taken = taken; waiting = []; is_over = true; pool = pool'; freed = out }

-- The completions one after another, as long as the transmission is not over.
unfoldable pub transmit : Transmission → List Completion → Transmission
unfolding on_sent
transmit t [] = t
transmit t (c ∷ cs) = let rest = transmit (on_sent t c) cs in if t.is_over then t else rest
