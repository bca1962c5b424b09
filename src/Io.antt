-- ===== src/Io.antt =====
-- The results of input and output, and the interfaces of tokio's buffered reader and writer.
use ra_multiplex.Base.{ℕ, Text}

pub data ErrorKind : Type 0 where
  connection_reset connection_aborted broken_pipe unexpected_eof not_connected : ErrorKind
  not_found other : ErrorKind

pub data IoResult (A : Type 0) : Type 0 where
  done : A → IoResult A
  failed : ErrorKind → IoResult A

-- `read_until` returns what it put into the cleared buffer: nothing means the end of the stream.
pub record AsyncBufRead (R : Type 0) : Type 0 where
  pub read_until : ℕ → R → IoResult Text × R
  pub read_exact : ℕ → R → IoResult Text × R

pub record AsyncWrite (W : Type 0) : Type 0 where
  pub write_all : Text → W → IoResult (Unit {0}) × W
  pub flush : W → IoResult (Unit {0}) × W
