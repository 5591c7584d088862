-- ===== src/Coro/Channel.antt =====
-- include/xsl/coro/channel/spsc.h: the channel of one producer and one consumer, which suspends the
-- consumer of an empty queue. Each operation runs without interruption.
pub mod Wakeup
mod Tests
use net_cpp.Prelude.{
  ℕ, zero, suc, ◌+◌, ◌-◌, ◌*◌, ◌/◌, ◌%◌, ◌^◌, ◌≤◌, ◌<◌, min, bit_and, bit_or, ◌≡◌, refl, sym, ap,
  ap₂, ◌∙◌, ◌≢◌, ◌↔◌, ◌⊎◌, inl, inr, Bool, true, false, not, ◌&&◌, ◌||◌, Option, none, some, List,
  [], ◌∷◌, ◌++◌, append-nil, append_assoc, arith, ltb, leb, ◌==◌, if◌then◌else◌, ltb→lt, lt→ltb,
  leb→le, le→leb, some_inj, ==_iff, Bool-cases, Option-cases, length, get_elem?, get_or, set, take,
  drop, replicate, length-append, length-set, get_or-set_self, get_or-set_ne, take-append,
  drop-append, length-take, length-drop, Str, codes, str_eq, str_eq→eq, str_eq_refl, eq→str_eq,
  str_eq_iff, all_below, all_below_sound,
}
use net_cpp.Sync.Spsc.{SnapShot, Storage, set_slot, put_value, refresh_tail, refresh_head}

-- `SPSCChannelStorage`; its ends and its buffer are those of the queue of include/xsl/sync/spsc.h.
pub record Channel (A : Type 0) : Type 0 where
  pub queue : Storage A
  pub callback : Bool  -- whether `_callback` is set
  pub closed : Bool

-- What an await comes to.
pub data Awaited (A : Type 0) : Type 0 where
  suspended : Awaited A
  resumed : Option A → Awaited A

module _ {A : Type 0} where
  abbrev pub with_queue : Storage A → Channel A → Channel A
  with_queue q c = record c { queue = q }

  -- `await_ready`
  pub await_ready : Channel A → Bool × Channel A
  await_ready c =
      let q = c.queue in
      if not (q.head.ctl == q.head.local)
      then (true, c)
      else (not (q.head.ctl == q.tail.ctl) || c.closed, with_queue (refresh_head q) c)

  -- `await_suspend`: whether the coroutine stays suspended. The exchange finds the callback that was
  -- stored.
  pub await_suspend : Channel A → Bool × Channel A
  await_suspend c =
      let q = c.queue in
      if not (q.head.ctl == q.tail.ctl) || c.closed
      then (false, record c { callback = false; queue = refresh_head q })
      else (true, record c { callback = true })

  -- The value moves out, and then the head is stored.
  abbrev pub take_value : Storage A → Storage A
  take_value q = record q {
    buffer = set_slot q.head.ctl none q.buffer;
    head = record q.head { ctl = bit_and (q.head.ctl + 1) q.size_mask };
  }

  -- `await_resume`
  pub await_resume : Channel A → Option A × Channel A
  await_resume c =
      let q = c.queue in
      if not (q.head.ctl == q.tail.ctl)
      then (q.buffer q.head.ctl, with_queue (take_value q) c)
      else (none, c)

  -- `co_await` on the channel.
  abbrev pub resume_with : Option A × Channel A → Awaited A × Channel A
  resume_with (v, c) = (resumed v, c)

  abbrev pub suspend_with : Bool × Channel A → Awaited A × Channel A
  suspend_with (true, c) = (suspended, c)
  suspend_with (false, c) = resume_with (await_resume c)

  abbrev pub ready_with : Bool × Channel A → Awaited A × Channel A
  ready_with (true, c) = resume_with (await_resume c)
  ready_with (false, c) = suspend_with (await_suspend c)

  pub await : Channel A → Awaited A × Channel A
  unfolding await_ready await_suspend await_resume
  await c = ready_with (await_ready c)

  -- The callback is taken out and called: it brings the cached tail up to date. Gives whether a
  -- consumer was woken.
  abbrev pub notify : Channel A → Bool × Channel A
  notify c =
      if c.callback
      then (true, record c { callback = false; queue = refresh_head c.queue })
      else (false, c)

  -- `push`: whether the value was taken, and what the consumer was told.
  pub push : A → Channel A → Bool × (Bool × Channel A)
  push v c =
      let q = c.queue in
      let n_tail = bit_and (q.tail.ctl + 1) q.size_mask in
      if c.closed
      then (false, (false, c))
      else if not (n_tail == q.tail.local)
      then (true, notify (with_queue (put_value v n_tail q) c))
      else if not (n_tail == q.head.ctl)
      then (true, notify (with_queue (put_value v n_tail (refresh_tail q)) c))
      else (false, (false, with_queue (refresh_tail q) c))

  -- `close`
  pub close : Channel A → Bool × Channel A
  close c = notify (record c { closed = true })
