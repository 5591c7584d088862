-- ===== src/Asio/Http/Response/Sendto.antt =====
-- include/xsl/asio/http/response.h: `ResponseBuilder` and its `sendto`.
use net_cpp.Prelude.{
  ◌+◌, ◌≤◌, ◌<◌, ◌≡◌, refl, ap, ap₂, inl, inr, Bool, true, false, Option, none, some, List, [], ◌∷◌,
  ◌++◌, append-nil, arith, leb, if◌then◌else◌, Bool-cases, length, length-append, Str,
}
use net_cpp.Errc.{Errc, ok}
use net_cpp.Asio.Io.{Turn, Sent, send, sendv}
use net_cpp.Asio.Io.Chunks.{sendv_two}
use net_cpp.Asio.Io.Whole.{rooms, Works, Done, send-Done}
use net_cpp.Asio.Http.Response.{ResponsePart, emplace, map_option, to_string, render_head}
use net_cpp.Asio.Http.Response.Head.{render_head-to_string}

-- `ResponseBuilder`; the body that writes itself is a function on the turns, if there is one.
pub record ResponseBuilder : Type 0 where
  pub part : ResponsePart
  pub body : Option (List Turn → Option Sent)
  pub raw_body : Str

-- `set_header`
unfoldable pub set_header : Str → Str → ResponseBuilder → ResponseBuilder
set_header key value r = record r {
  part = record r.part { headers = (emplace key value r.part.headers).1 };
}

-- The head: rendered into the buffer of the frame or, if it came out empty, a string.
abbrev or_text : Option Str → Option Str → Option Str
or_text none t = none
or_text (some []) t = t
or_text (some (c ∷ cs)) t = some (c ∷ cs)

pub head_of : ResponsePart → Option Str
head_of p = or_text (render_head p 1024) (to_string p)

-- `operator bool` of a result
pub is_ok : Errc → Bool
is_ok ok = true
is_ok _ = false

-- A second write behind a first one, whose size is added.
abbrev joint : Sent → Sent → Sent
joint s b = record {
  result = record b.result { size = b.result.size + s.result.size };
  wire = s.wire ++ b.wire;
  rest = b.rest;
}

abbrev add_size : Sent → Option Sent → Option Sent
add_size s none = none
add_size s (some b) = some (joint s b)

pub and_then : Option Sent → (List Turn → Option Sent) → Option Sent
and_then none k = none
and_then (some s) k = if is_ok s.result.ec then add_size s (k s.rest) else some s

-- The body behind the head, if there is one.
abbrev with_body : Option (List Turn → Option Sent) → Option Sent → Option Sent
with_body none r = r
with_body (some body) r = and_then r body

-- `sendto` to a device with `writev`, and to one without.
pub send_raw : Bool → List Turn → Str → Option (List Turn → Option Sent) → Str → Option Sent
send_raw gathers ts head body [] = with_body body (send ts head)
send_raw gathers ts head body (c ∷ cs) =
    if gathers
    then sendv ts (head ∷ (c ∷ cs) ∷ [])
    else and_then (send ts head) (λ ts'. send ts' (c ∷ cs))

-- `none` outside is a read past the table of a text.
pub sendto : Bool → List Turn → ResponseBuilder → Option (Option Sent)
sendto gathers ts r =
    map_option (λ head. send_raw gathers ts head r.body r.raw_body) (head_of r.part)

-- The head that is sent is the text of the head, whether it fits into the buffer or not.
pub head_of-to_string : (p : ResponsePart) → head_of p ≡ to_string p
unfolding head_of
head_of-to_string p = rw (render_head-to_string p 1024) (text_or (to_string p))
  where
    whole : (s : Str) → or_text (some s) (some s) ≡ some s
    whole [] = refl
    whole (c ∷ cs) = refl

    text_or :
        (t : Option Str) → or_text (map_option (λ s. if leb (length s) 1024 then s else []) t) t ≡ t
    text_or none = refl
    text_or (some s) = elim (Bool-cases (leb (length s) 1024)) [
      | inl e ↦ rw e (whole s)
      | inr e ↦ rw e refl
    ]

-- What a send of a whole text on turns that work gives.
pub record Written (ts : List Turn) (text : Str) (s : Sent) : Type 0 where
  pub size : s.result.size ≡ length text
  pub ec : s.result.ec ≡ ok
  pub wire : s.wire ≡ text
  pub works : Works s.rest
  pub enough : rooms ts ≤ rooms s.rest + length text + 2

Done-Written : (ts : List Turn) (a : Str) (s : Sent) → Done ts a s → Written ts a s
Done-Written ts a s d = record {
  size = d.size;
  ec = d.ec;
  wire = d.wire;
  works = d.works;
  enough = omega (arith, d.enough);
}

Writes : List Turn → Str → Option Sent → Type 0
Writes ts text r = (s : Sent) × (r ≡ some s) × Written ts text s

send-Writes : (ts : List Turn) (a : Str) → Works ts → length a < rooms ts → Writes ts a (send ts a)
unfolding Writes
send-Writes ts a w l = let (s, e, d) = send-Done ts a w l in (s, e, Done-Written ts a s d)

and_then-Writes :
    (ts : List Turn) (a b : Str)
    → Works ts
    → length a + length b + 1 < rooms ts
    → Writes ts (a ++ b) (and_then (send ts a) (λ ts'. send ts' b))
unfolding and_then is_ok Writes
and_then-Writes ts a b w l =
    let (s, e, d) = send-Done ts a w (omega arith) in
    let (s', e', d') = send-Done s.rest b d.works (omega (arith, d.enough)) in
    (
      joint s s',
      rw (e, d.ec, e') refl,
      record {
        size = omega (arith, d.size, d'.size, length-append a b);
        ec = d'.ec;
        wire = ap₂ ◌++◌ d.wire d'.wire;
        works = d'.works;
        enough = omega (arith, d.enough, d'.enough, length-append a b);
      },
    )

sendv-Writes :
    (ts : List Turn) (a b : Str)
    → Works ts
    → length a + length b < rooms ts
    → 0 < length b
    → Writes ts (a ++ b) (sendv ts (a ∷ b ∷ []))
sendv-Writes ts a b w l h =
    rw (sendv_two ts a b h) (send-Writes ts (a ++ b) w (omega (arith, length-append a b)))

send_raw-Writes :
    (g : Bool) (ts : List Turn) (head raw : Str)
    → Works ts
    → length head + length raw + 1 < rooms ts
    → Writes ts (head ++ raw) (send_raw g ts head none raw)
unfolding send_raw
send_raw-Writes g ts head [] w l = rw (append-nil head) (send-Writes ts head w (omega arith))
send_raw-Writes true ts head (c ∷ cs) w l =
    sendv-Writes ts head (c ∷ cs) w (omega arith) (omega arith)
send_raw-Writes false ts head (c ∷ cs) w l = and_then-Writes ts head (c ∷ cs) w l

-- On turns where every call has room and nothing fails, and enough of them, a response whose body is
-- a string is written whole, the text of its head first and then the body, without an error: to a
-- device that gathers chunks in one call and to one that does not alike, and whether or not the head
-- fits into the buffer of the frame.
pub sendto-Written :
    (g : Bool) (ts : List Turn) (r : ResponseBuilder) (head : Str)
    → to_string r.part ≡ some head
    → r.body ≡ none
    → Works ts
    → length head + length r.raw_body + 1 < rooms ts
    → (s : Sent) × (sendto g ts r ≡ some (some s)) × Written ts (head ++ r.raw_body) s
unfolding sendto Writes
sendto-Written g ts r head h n w l =
    let (s, e, d) = send_raw-Writes g ts head r.raw_body w l in
    (s, rw (head_of-to_string r.part, h, n) (ap some e), d)

pub is_ok_ok : is_ok ok ≡ true
unfolding is_ok
is_ok_ok = refl
