-- ===== src/Coro/PubSub.antt =====
-- include/xsl/coro/pub_sub.h: the signals of a device under their keys, and `epoll_handle` of
-- include/xsl/asio/io.h, which publishes to them. The signals are `MPSCSignal`s, as `IOSignal` of
-- include/xsl/asio/def.h. An operation is one step from its first signal to its last: no other
-- thread and no coroutine that it wakes comes in between.
use net_cpp.Prelude.{
  ℕ, zero, suc, ◌+◌, ◌-◌, ◌*◌, ◌/◌, ◌%◌, ◌^◌, ◌≤◌, ◌<◌, min, bit_and, bit_or, ◌≡◌, refl, sym, ap,
  ap₂, ◌∙◌, ◌≢◌, ◌↔◌, ◌⊎◌, inl, inr, Bool, true, false, not, ◌&&◌, ◌||◌, Option, none, some, List,
  [], ◌∷◌, ◌++◌, append-nil, append_assoc, arith, ltb, leb, ◌==◌, if◌then◌else◌, ltb→lt, lt→ltb,
  leb→le, le→leb, some_inj, ==_iff, Bool-cases, Option-cases, length, get_elem?, get_or, set, take,
  drop, replicate, length-append, length-set, get_or-set_self, get_or-set_ne, take-append,
  drop-append, length-take, length-drop, Str, codes, str_eq, str_eq→eq, str_eq_refl, eq→str_eq,
  str_eq_iff, all_below, all_below_sound,
}
use net_cpp.Coro.Signal.State.{State, idle, signaled, stopped, waiting}
use net_cpp.Coro.Signal.Mpsc
mod Wakes
mod Tests

-- `StaticExactPubSubStorage`: the keys with their signals, in the order of the array.
abbrev pub Signals : Type 0
Signals = List (ℕ × State)

-- Whether a key was published to, the keys whose consumers were woken, in order, and the signals.
abbrev pub Published : Type 0
Published = Bool × List ℕ × Signals

-- One signal in front of the others, after an operation that tells whether it woke its consumer.
abbrev pub in_front : ℕ → Bool × State → Published → Published
in_front k (true, s) (any, woken, m) = (any, k ∷ woken, (k, s) ∷ m)
in_front k (false, s) (any, woken, m) = (any, woken, (k, s) ∷ m)

abbrev pub found : Published → Published
found (any, woken, m) = (true, woken, m)

-- `publish` with a predicate
pub publish : (ℕ → Bool) → Signals → Published
publish pred [] = (false, [], [])
publish pred ((k, s) ∷ m) =
    let rest = publish pred m in
    if pred k then found (in_front k (Mpsc.release s) rest) else in_front k (false, s) rest

-- `publish<key>`
pub publish_key : ℕ → Signals → Published
publish_key key [] = (false, [], [])
publish_key key ((k, s) ∷ m) =
    let rest = publish_key key m in
    if k == key
    then found (in_front k (Mpsc.release s) (false, [], m))
    else in_front k (false, s) rest

-- `stop`
pub stop : Signals → Published
stop [] = (false, [], [])
stop ((k, s) ∷ m) = let rest = stop m in in_front k (Mpsc.stop s) rest

-- `IOM_EVENTS::HUP`
abbrev pub hup : ℕ
hup = 16

-- `DefaultEpollWrapper::epoll_handle`: whether the handler is to be deleted, and the signals.
pub epoll_handle : ℕ → Signals → Bool × List ℕ × Signals
epoll_handle events m =
    let (any, woken, m') = publish (λ e. not (bit_and events e == 0)) m in
    if events == 0 || not (bit_and events hup == 0) then (true, [], m) else (false, woken, m')
