-- ===== src/Connection.antt =====
-- One connection, as the two channels at its ends (src/Socket.cpp): each is used by any number of
-- threads, and the system carries the bytes between them.
pub mod Delivery
mod Tests
use socket_lib_linux.Prelude.{ℕ, ◌≡◌, List, ◌++◌}
use socket_lib_linux.Message.{Message}
use socket_lib_linux.BulkQueue.{BulkQueue}
use socket_lib_linux.Channel.Workers
use socket_lib_linux.Channel.Readers

-- The two sides of a channel; they have one `active`.
pub record Endpoint (Q : Type 0) : Type 0 where
  pub writer : Workers.Shared Q
  pub reader : Readers.Shared

pub record Connection (Q : Type 0) : Type 0 where
  pub near : Endpoint Q
  pub far : Endpoint Q

abbrev pub FirstPart : List ℕ → List ℕ → Type 0
FirstPart xs ys = (rest : List ℕ) × (ys ≡ xs ++ rest)

module _ {Q : Type 0} where
  abbrev pub written : Workers.Shared Q → Endpoint Q → Endpoint Q
  written w c = record { writer = w; reader = record c.reader { active = w.active } }

  abbrev pub read : Readers.Shared → Endpoint Q → Endpoint Q
  read r c = record { writer = record c.writer { active = r.active }; reader = r }

module _ {Q : Type 0} (queue : BulkQueue Q (ℕ × Message)) where
  -- One step of one thread at one end. The connection is a stream, as TCP documents it: what `recv` has
  -- given at one end is a first part of what `send` has taken at the other.
  pub data Step (s : Connection Q) : Connection Q → Type 0 where
    near_writes :
        (w : Workers.Shared Q)
        → Workers.Step queue s.near.writer w
        → Step s (record s { near = written w s.near })
    near_reads :
        (r : Readers.Shared)
        → Readers.Step s.near.reader r
        → FirstPart r.stream s.far.writer.wire
        → Step s (record s { near = read r s.near })
    far_writes :
        (w : Workers.Shared Q)
        → Workers.Step queue s.far.writer w
        → Step s (record s { far = written w s.far })
    far_reads :
        (r : Readers.Shared)
        → Readers.Step s.far.reader r
        → FirstPart r.stream s.near.writer.wire
        → Step s (record s { far = read r s.far })

  pub data Reach (s : Connection Q) : Connection Q → Type 0 where
    here : Reach s s
    later : {t u : Connection Q} → Reach s t → Step t u → Reach s u
