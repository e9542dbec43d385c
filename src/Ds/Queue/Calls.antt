-- ===== src/Ds/Queue/Calls.antt =====
-- What a caller can ask of a queue, and what it sees of each call.
use gos_v.Common.{ℕ, Bool}

-- A `void*`.
abbrev pub Pointer : Type 0
Pointer = ℕ

abbrev pub null : Pointer
null = 0

pub data Op : Type 0 where
  put : Pointer → Op
  take_out : Op
  ask_empty : Op

pub data Reply : Type 0 where
  done : Reply
  taken : Pointer → Reply
  told : Bool → Reply
