-- ===== src/Http/Router/Paths.antt =====
-- A path and its segments determine each other, and the last segment of a path.
use net_cpp.Prelude.{
  ◌≡◌, refl, sym, ap, ◌∙◌, inl, inr, Bool, false, ◌||◌, List, [], ◌∷◌, ◌++◌, append_assoc, ◌==◌,
  ==_iff, Bool-cases, Str,
}
use net_cpp.Http.Router.{Segments, split_step, segments, join}

-- The texts of the segments give back the path.
pub join-segments : (cs : Str) → join (segments cs).0 (segments cs).1 ≡ b'/' ∷ cs
join-segments [] = refl
join-segments (c ∷ cs) = elim (Bool-cases (c == b'/')) [
  | inl e ↦
      rw (e, split_step)
        (ap (λ l. b'/' ∷ l) (join-segments cs ∙ ap (λ k. k ∷ cs) (sym ((==_iff c b'/').0 e))))
  | inr e ↦ rw (e, split_step) (longer (segments cs).0 (segments cs).1 (join-segments cs))
]
  where
    longer : (s : Str) (ss : List Str) → join s ss ≡ b'/' ∷ cs → join (c ∷ s) ss ≡ b'/' ∷ c ∷ cs
    longer s [] h = ap (λ l. b'/' ∷ c ∷ l) (tail_eq h)
      where
        tail_eq : b'/' ∷ s ≡ b'/' ∷ cs → s ≡ cs
        tail_eq e = cc
    longer s (t ∷ ts) h = ap (λ l. b'/' ∷ c ∷ l) (tail_eq h)
      where
        tail_eq : b'/' ∷ (s ++ join t ts) ≡ b'/' ∷ cs → s ++ join t ts ≡ cs
        tail_eq e = cc

pub segments_inj : (a b : Str) → segments a ≡ segments b → a ≡ b
segments_inj a b e =
    let h : b'/' ∷ a ≡ b'/' ∷ b =
      sym (join-segments a) ∙ ap (λ (s : Segments). join s.0 s.1) e ∙ join-segments b in
    cc

abbrev pub has_slash : Str → Bool
has_slash [] = false
has_slash (c ∷ cs) = c == b'/' || has_slash cs

-- The text behind the last slash of a path.
abbrev pub LastSegment : Str → Str → Type 0
LastSegment path s = (before : Str) × (path ≡ before ++ (b'/' ∷ s)) × (has_slash s ≡ false)

abbrev pub last_of : Str → List Str → Str
last_of s [] = s
last_of s (t ∷ ts) = last_of t ts

abbrev Plain : List Str → Type 0
Plain [] = Unit {0}
Plain (s ∷ ss) = (has_slash s ≡ false) × Plain ss

segments-Plain : (cs : Str) → Plain ((segments cs).0 ∷ (segments cs).1)
segments-Plain [] = (refl, tt)
segments-Plain (c ∷ cs) = elim (Bool-cases (c == b'/')) [
  | inl e ↦ rw (e, split_step) (refl, segments-Plain cs)
  | inr e ↦ rw (e, split_step) (rw e (segments-Plain cs).0, (segments-Plain cs).1)
]

last_of-join : (s : Str) (ts : List Str) → Plain (s ∷ ts) → LastSegment (join s ts) (last_of s ts)
last_of-join s [] h = ([], refl, h.0)
last_of-join s (t ∷ ts) h =
    let (before, e, plain) = last_of-join t ts h.1 in
    (
      b'/' ∷ (s ++ before),
      ap (λ l. b'/' ∷ l) (ap (λ l. s ++ l) e ∙ sym (append_assoc s before (b'/' ∷ last_of t ts))),
      plain,
    )

pub last_of-segments :
    (cs : Str) → LastSegment (b'/' ∷ cs) (last_of (segments cs).0 (segments cs).1)
last_of-segments cs =
    let (before, e, plain) = last_of-join (segments cs).0 (segments cs).1 (segments-Plain cs) in
    (before, sym (join-segments cs) ∙ e, plain)
