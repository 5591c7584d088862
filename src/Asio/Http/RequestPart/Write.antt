-- ===== src/Asio/Http/RequestPart/Write.antt =====
-- What a builder writes is its text.
use net_cpp.Prelude.{
  ℕ, ◌+◌, ◌≤◌, ◌<◌, ◌≡◌, refl, sym, ap, ap₂, ◌∙◌, Option, some, List, [], ◌∷◌, ◌++◌, append-nil,
  append_assoc, arith, length, length-append, Str,
}
use net_cpp.Errc.{ok}
use net_cpp.Asio.Io.{Turn, send}
use net_cpp.Asio.Io.Whole.{rooms, Works, send-Done}
use net_cpp.Asio.Http.Response.{crlf}
use net_cpp.Asio.Http.Response.Sendto.{is_ok_ok}
use net_cpp.Asio.Http.RequestPart.{
  RequestPartBuilder, blocks_text, to_string, Wrote, next_block, done, block_of, write_last,
  write_blocks, write_part, write,
}
use net_cpp.Asio.Http.RequestPart.Text.{text, IsValid, append-Grown}

abbrev Writes : Str → Option Wrote → Type 0
Writes s r = (w : Wrote) × (r ≡ some w) × (w.ec ≡ ok) × (w.wire ≡ s)

-- A block in front of what is written next.
next_block-Writes :
    (b s : Str) (ts : List Turn) (next : List Turn → Option Wrote)
    → Works ts
    → length b < rooms ts
    → ((ts' : List Turn) → Works ts' → rooms ts ≤ rooms ts' + length b + 1 → Writes s (next ts'))
    → Writes (b ++ s) (next_block next (send ts b))
next_block-Writes b s ts next w l h =
    let (sent, e, d) = send-Done ts b w l in
    let (v, f, g, wire) = h sent.rest d.works d.enough in
    (
      record v { wire = sent.wire ++ v.wire },
      rw (e, d.ec, is_ok_ok, f) refl,
      g,
      ap₂ ◌++◌ d.wire wire,
    )

write_last-Writes :
    (last : Str) (ts : List Turn)
    → Works ts
    → length last < rooms ts
    → Writes last (write_last last ts)
unfolding write_last
write_last-Writes [] ts w l = (record { ec = ok; wire = []; rest = ts }, refl, refl, refl)
write_last-Writes (c ∷ cs) ts w l =
    let (v, e, g, wire) =
      next_block-Writes (c ∷ cs) [] ts done w l (λ ts' w' m. (_, refl, refl, refl)) in
    (v, e, g, wire ∙ append-nil (c ∷ cs))

write_blocks-Writes :
    (bs : List Str) (last : Str) (ts : List Turn)
    → Works ts
    → length (blocks_text bs) + length bs + length last < rooms ts
    → Writes (blocks_text bs ++ last) (write_blocks bs last ts)
unfolding write_blocks blocks_text
write_blocks-Writes [] last ts w l = write_last-Writes last ts w (omega arith)
write_blocks-Writes (b ∷ bs) last ts w l =
    let (v, e, g, wire) =
      next_block-Writes (block_of b) (blocks_text bs ++ last) ts (write_blocks bs last) w
        (omega (arith, length-append (block_of b) (blocks_text bs)))
        (λ ts' w' m.
          write_blocks-Writes bs last ts' w'
            (omega (arith, m, length-append (block_of b) (blocks_text bs)))) in
    (v, e, g, wire ∙ sym (append_assoc (block_of b) (blocks_text bs) last))

-- On turns where every call has room and nothing fails, and enough of them, a valid builder writes
-- its text, whole blocks and the rest of the last, with the end of the head, as `to_string` gives it, without an error.
pub write-to_string :
    (f : ℕ) (ts : List Turn) (b : RequestPartBuilder)
    → IsValid b
    → 0 < f
    → Works ts
    → length (to_string b) + length b.full + 2 < rooms ts
    → (w : Wrote) × (write f ts (some b) ≡ some w) × (w.ec ≡ ok) × (w.wire ≡ to_string b)
unfolding write to_string text
write-to_string f ts b v p w l =
    let (b', e, g, _, few) = append-Grown f crlf b v (omega arith) p in
    let size : length (blocks_text b'.full) + length b'.last ≡ length (to_string b) =
      sym (length-append (blocks_text b'.full) b'.last) ∙ ap length g in
    let (r, h, k, wire) = write_blocks-Writes b'.full b'.last ts w (omega arith) in
    (r, ap (write_part ts) e ∙ h, k, wire ∙ g)
