-- ===== src/Sync/Spsc.antt =====
-- include/xsl/sync/spsc.h: the bounded queue of one producer and one consumer, its two ends with
-- their cached view of the other end.
pub mod Queue
pub mod Pop
mod Tests
use net_cpp.Prelude.{
  ℕ, zero, suc, ◌+◌, ◌-◌, ◌*◌, ◌/◌, ◌%◌, ◌^◌, ◌≤◌, ◌<◌, min, bit_and, bit_or, ◌≡◌, refl, sym, ap,
  ap₂, ◌∙◌, ◌≢◌, ◌↔◌, ◌⊎◌, inl, inr, Bool, true, false, not, ◌&&◌, ◌||◌, Option, none, some, List,
  [], ◌∷◌, ◌++◌, append-nil, append_assoc, arith, ltb, leb, ◌==◌, if◌then◌else◌, ltb→lt, lt→ltb,
  leb→le, le→leb, some_inj, ==_iff, Bool-cases, Option-cases, length, get_elem?, get_or, set, take,
  drop, replicate, length-append, length-set, get_or-set_self, get_or-set_ne, take-append,
  drop-append, length-take, length-drop, Str, codes, str_eq, str_eq→eq, str_eq_refl, eq→str_eq,
  str_eq_iff, all_below, all_below_sound,
}

-- `SnapShot`; the buffer, which both ends share, stands in the storage.
pub record SnapShot : Type 0 where
  pub ctl : ℕ
  pub local : ℕ

-- `Storage`: a slot of the buffer holds a value once it is constructed, none once it is destroyed.
pub record Storage (A : Type 0) : Type 0 where
  pub head : SnapShot
  pub tail : SnapShot
  pub size_mask : ℕ
  pub buffer : ℕ → Option A

abbrev pub set_slot : {A : Type 0} → ℕ → Option A → (ℕ → Option A) → ℕ → Option A
set_slot i v b j = if j == i then v else b j

-- `Storage::Storage` with the mask that `ceil2pow2` gives.
abbrev pub construct : {A : Type 0} → ℕ → Storage A
construct mask = record {
  head = record { ctl = 0; local = 0 };
  tail = record { ctl = 0; local = 0 };
  size_mask = mask;
  buffer = λ i. none;
}

module _ {A : Type 0} where
  -- The value is constructed in its slot, and then `ep._ctl` is stored.
  abbrev pub put_value : A → ℕ → Storage A → Storage A
  put_value v n_tail q = record q {
    buffer = set_slot q.tail.ctl (some v) q.buffer;
    tail = record q.tail { ctl = n_tail };
  }

  -- `ep._local = storage._head._ctl.load()` at the tail, and the same at the head.
  abbrev pub refresh_tail : Storage A → Storage A
  refresh_tail q = record q { tail = record q.tail { local = q.head.ctl } }

  abbrev pub refresh_head : Storage A → Storage A
  refresh_head q = record q { head = record q.head { local = q.tail.ctl } }

  -- `TxTraits::push`
  unfoldable pub push : A → Storage A → Bool × Storage A
  push v q =
      let n_tail = bit_and (q.tail.ctl + 1) q.size_mask in
      if not (n_tail == q.tail.local)
      then (true, put_value v n_tail q)
      else if not (n_tail == q.head.ctl)
      then (true, put_value v n_tail (refresh_tail q))
      else (false, refresh_tail q)

  -- The first part of `RxTraits::pop`: whether there is a value, and the store of the new head.
  abbrev pub advance_head : Storage A → Storage A
  advance_head q = record q { head = record q.head { ctl = bit_and (q.head.ctl + 1) q.size_mask } }

  pub pop_begin : Storage A → Bool × Storage A
  pop_begin q =
      if not (q.head.ctl == q.head.local)
      then (true, advance_head q)
      else if not (q.head.ctl == q.tail.ctl)
      then (true, advance_head (refresh_head q))
      else (false, refresh_head q)

  -- Its second part, at the slot of the old head: the value moves out and is destroyed.
  unfoldable pub pop_end : ℕ → Storage A → Option A × Storage A
  pop_end head q = (q.buffer head, record q { buffer = set_slot head none q.buffer })

  -- `RxTraits::pop`; `none` where it gives false.
  pub pop : Storage A → Option A × Storage A
  unfolding pop_begin pop_end
  pop q = let (found, q1) = pop_begin q in if found then pop_end q.head.ctl q1 else (none, q1)
