-- ===== src/Asio/Io/Files.antt =====
-- A part of a file is sent like a text.
use net_cpp.Prelude.{
  ℕ, zero, suc, ◌+◌, ◌-◌, ◌≤◌, ◌<◌, min, ◌≡◌, refl, sym, ap, ◌∙◌, inl, inr, true, false, List, [],
  ◌∷◌, arith, ltb, ◌==◌, Bool-cases, length, take, drop, length-take, length-drop, Str,
}
use net_cpp.Prelude.Search.{drop-drop}
use net_cpp.Errc.{not_connected, from_errno}
use net_cpp.Asio.Io.{
  Turn, room, blocked, fault, ends, send_from, send, opened, send_file_from, send_file,
}

take-take {ℓ} : {A : Type ℓ} (m p : ℕ) (s : List A) → m ≤ p → take m (take p s) ≡ take m s
take-take zero p s h = refl
take-take (suc m) zero s h = absurd (omega arith)
take-take (suc m) (suc p) [] h = refl
take-take (suc m) (suc p) (x ∷ s) h = ap (λ l. x ∷ l) (take-take m p s (omega arith))

take-nil {ℓ} : {A : Type ℓ} (n : ℕ) → take {A = A} n [] ≡ []
take-nil zero = refl
take-nil (suc n) = refl

drop-take {ℓ} :
    {A : Type ℓ} (n p : ℕ) (s : List A) → n ≤ p → drop n (take p s) ≡ take (p - n) (drop n s)
drop-take zero p s h = ap (λ k. take k s) (omega arith)
drop-take (suc n) zero s h = absurd (omega arith)
drop-take (suc n) (suc p) [] h = sym (take-nil (suc p - suc n))
drop-take (suc n) (suc p) (x ∷ s) h =
    drop-take n p s (omega arith)
    ∙ ap (λ k. take k (drop n s)) (let e : p - n ≡ suc p - suc n = omega arith in e)

module _ (file : Str) (first size : ℕ) (h : first + size ≤ length file) where
  part : Str
  part = take size (drop first file)

  length-part : length part ≡ size
  unfolding part
  length-part = omega (arith, length-take size (drop first file), length-drop first file)

  piece : (m n : ℕ) → n + m ≤ size → take m (drop n part) ≡ take m (drop (first + n) file)
  unfolding part
  piece m n l =
      ap (take m) (drop-take n size (drop first file) (omega arith))
      ∙ take-take m (size - n) (drop n (drop first file)) (omega arith)
      ∙ ap (take m) (drop-drop first n file)

  file_agrees :
      (ts : List Turn) (n : ℕ)
      → n < size
      → send_file_from ts file first (first + n) (size + first) ≡ send_from ts part n
  unfolding send_file_from send_from
  file_agrees [] n l = refl
  file_agrees (room k ∷ ts) n l =
      let m = min k (size - n) in
      let same : min k (min (size + first - (first + n)) (length file - (first + n))) ≡ m =
        omega arith in
      let here : first + n - first ≡ n = omega arith in
      let there : first + n + m ≡ first + (n + m) = omega arith in
      let there' : first + (n + m) - first ≡ n + m = omega arith in
      let before : (first + n == size + first) ≡ false = ground arith in
      rw (same, length-part, here, there, there', before, piece m n (omega arith))
        (elim (Bool-cases (ltb (n + m) size)) [
          | inl e ↦
              let more : (first + (n + m) == size + first) ≡ false = ground arith in
              rw (e, more, file_agrees ts (n + m) (ground arith)) refl
          | inr e ↦
              let last : (first + (n + m) == size + first) ≡ true = ground arith in
              rw (e, last) refl
        ])
  file_agrees (blocked true ∷ ts) n l =
      let below : ltb n (length part) ≡ true = ground (arith, length-part) in
      let before : (first + n == size + first) ≡ false = ground arith in
      rw (below, before) (file_agrees ts n l)
  file_agrees (blocked false ∷ ts) n l = ap (λ k. ends k not_connected ts) (omega arith)
  file_agrees (fault e ∷ ts) n l = ap (λ k. ends k (from_errno e) ts) (omega arith)

-- A nonempty part of a file that is long enough is sent just as those bytes by `send`: the same
-- result and the same bytes, for any course of partial writes, waits and errors.
pub send_file-send :
    (ts : List Turn) (file : Str) (first size : ℕ)
    → first + size ≤ length file
    → 0 < size
    → send_file ts (opened file) first size ≡ send ts (take size (drop first file))
unfolding send_file send part
send_file-send ts file first size h l =
    ap (λ o. send_file_from ts file first o (size + first))
      (let e : first ≡ first + 0 = omega arith in e)
    ∙ file_agrees file first size h ts 0 l
