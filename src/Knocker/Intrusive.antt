-- ===== src/Knocker/Intrusive.antt =====
-- knocker/knocker-intrusive.cc: connections in a table indexed by file descriptor, linked in the
-- order of their start into a doubly linked list of indices.
pub mod Events
pub mod Fill
pub mod Flight
pub mod Links
pub mod Queue
pub mod Scanner
pub mod Sweep
pub mod Unlink
use low_level_cpp.Base.{ℕ, Bool, Option, none, some, ◌==◌, if◌then◌else◌}
use low_level_cpp.Base.Store.{update}

-- `next` and `prev` are -1 in the code where they are `none` here; so is the port of a connection that
-- was never used, which nothing reads and which is 0 here.
pub record Connection : Type 0 where
  pub active : Bool
  pub port : ℕ
  pub start_time : ℕ
  pub next : Option ℕ
  pub prev : Option ℕ

abbrev pub Table : Type 0
Table = ℕ → Connection

pub record ConnList : Type 0 where
  pub head : Option ℕ
  pub tail : Option ℕ

unfoldable pub set_next : Table → ℕ → Option ℕ → Table
set_next table fd n = update table fd (record (table fd) { next = n })

unfoldable pub set_prev : Table → ℕ → Option ℕ → Table
set_prev table fd p = update table fd (record (table fd) { prev = p })

abbrev pub link_tail : Option ℕ → Table → ConnList → ℕ → Table × ConnList
link_tail none table list fd = (table, record { head = some fd; tail = some fd })
link_tail (some last) table list fd =
    (set_next table last (some fd), record list { tail = some fd })

unfoldable pub list_insert_tail : Table → ConnList → ℕ → Table × ConnList
list_insert_tail table list fd =
    link_tail list.tail (set_next (set_prev table fd list.tail) fd none) list fd

-- The four cases of `list_unlink`, by the neighbours `p` and `n`.
abbrev pub unlink_between : (p n : Option ℕ) → Table → ConnList → Table × ConnList
unlink_between none none table list = (table, record { head = none; tail = none })
unlink_between none (some n) table list = (set_prev table n none, record list { head = some n })
unlink_between (some p) none table list = (set_next table p none, record list { tail = some p })
unlink_between (some p) (some n) table list =
    (set_prev (set_next table p (some n)) n (some p), list)

unfoldable pub list_unlink : Table → ConnList → ℕ → Table × ConnList
list_unlink table list fd = unlink_between (table fd).prev (table fd).next table list
