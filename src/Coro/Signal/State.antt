-- ===== src/Coro/Signal/State.antt =====
-- `_state` of a signal.

pub data State : Type 0 where
  idle : State
  signaled : State
  stopped : State
  waiting : State
