-- ===== src/Daemon/Conn.antt =====
-- One client connection as crates/usbipd/src/daemon.rs sees it: the bytes that the client will have
-- sent, how the stream ends, what was written to it, and how many more writes it takes. A write that
-- fails leaves nothing in `sent`; of the bytes that a failed read took, the program keeps none.
use usbipd_darwin.Common.{
  ℕ, zero, suc, List, [], ◌++◌, Result, ok, err, leb, if◌then◌else◌, length, take, drop,
}

pub data ReadError : Type 0 where
  unexpected_eof read_failed : ReadError

pub data WriteError : Type 0 where
  write_failed : WriteError

pub record Conn : Type 0 where
  pub input : List ℕ
  pub ending : ReadError
  pub sent : List ℕ
  pub writes_left : ℕ

-- `AsyncReadExt::read_exact` into a buffer of `n` bytes
unfoldable pub read_exact : ℕ → Conn → Result (List ℕ) ReadError × Conn
read_exact n c =
    if leb n (length c.input)
    then (ok (take n c.input), record c { input = drop n c.input })
    else (err c.ending, record c { input = [] })

-- `AsyncWriteExt::write_all`
unfoldable pub write_all : List ℕ → Conn → Result (Unit {0}) WriteError × Conn
write_all bytes c = elim c.writes_left as (λ _. Result (Unit {0}) WriteError × Conn) [
  | zero ↦ (err write_failed, c)
  | suc left ↦ (ok tt, record c { sent = c.sent ++ bytes; writes_left = left })
]
