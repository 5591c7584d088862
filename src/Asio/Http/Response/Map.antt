-- ===== src/Asio/Http/Response/Map.antt =====
-- The map of headers is a list of entries with distinct keys, where the first value of a key wins.
use net_cpp.Prelude.{
  ℕ, zero, suc, ◌-◌, ◌≤◌, ◌≡◌, refl, sym, ap, ◌∙◌, ◌≢◌, inl, inr, Bool, true, false, not, ◌&&◌,
  ◌||◌, some, List, [], ◌∷◌, ◌++◌, append-nil, append_assoc, arith, ltb, leb, if◌then◌else◌,
  Bool-cases, length, get_elem?, length-append, Str, str_eq, str_eq→eq, str_eq_refl, eq→str_eq,
}
use mathlib.Core.Path.{subst}
use net_cpp.Http.Message.{lookup}
use net_cpp.Asio.Http.Response.{
  SmallHeaderMap, inline_capacity, key_buffer_size, value_buffer_size, has_key, contains, emplace,
  size, entry,
}

-- All entries, in the order in which `entry` gives them.
abbrev pub entries : SmallHeaderMap → List (Str × Str)
entries m = m.slots ++ m.overflow

abbrev pub Distinct : List (Str × Str) → Type 0
Distinct [] = Unit {0}
Distinct ((k, v) ∷ m) = (has_key k m ≡ false) × Distinct m

-- The entries fit into their slots.
abbrev pub Fit : List (Str × Str) → Type 0
Fit [] = Unit {0}
Fit ((k, v) ∷ m) = (length k ≤ key_buffer_size) × (length v ≤ value_buffer_size) × Fit m

pub record IsValid (m : SmallHeaderMap) : Type 0 where
  pub room : length m.slots ≤ inline_capacity
  pub fit : Fit m.slots
  pub distinct : Distinct (entries m)

has_key-append :
    (k : Str) (a b : List (Str × Str)) → has_key k (a ++ b) ≡ (has_key k a || has_key k b)
unfolding has_key
has_key-append k [] b = refl
has_key-append k ((j, v) ∷ a) b = rw (has_key-append k a b) (ground arith)

Fit-append : (a b : List (Str × Str)) → Fit a → Fit b → Fit (a ++ b)
Fit-append [] b f g = g
Fit-append ((k, v) ∷ a) b (f, f', fs) g = (f, f', Fit-append a b fs g)

-- An entry with a new key between the others.
module _ (k v : Str) where
  has_key-insert :
      (j : Str) (a b : List (Str × Str))
      → has_key j (a ++ b) ≡ false
      → str_eq k j ≡ false
      → has_key j (a ++ ((k, v) ∷ b)) ≡ false
  unfolding has_key
  has_key-insert j [] b h e = rw (e, h) refl
  has_key-insert j ((i, w) ∷ a) b h e = elim (Bool-cases (str_eq i j)) [
    | inl f ↦ absurd (no (rw f at h))
    | inr f ↦ rw f (has_key-insert j a b (rw f at h) e)
  ]
    where
      no : true ≡ false → ⊥
      no e = cc

  Distinct-insert :
      (a b : List (Str × Str))
      → Distinct (a ++ b)
      → has_key k (a ++ b) ≡ false
      → Distinct (a ++ ((k, v) ∷ b))
  unfolding has_key
  Distinct-insert [] b d h = (h, d)
  Distinct-insert ((i, w) ∷ a) b (e, d) h =
      let (f, g) = split (str_eq i k) (has_key k (a ++ b)) h in
      (has_key-insert i a b e (other f), Distinct-insert a b d g)
    where
      split : (x y : Bool) → (x || y) ≡ false → (x ≡ false) × (y ≡ false)
      split x y e = ground arith

      no : true ≡ false → ⊥
      no e = cc

      other : str_eq i k ≡ false → str_eq k i ≡ false
      other f = elim (Bool-cases (str_eq k i)) [
        | inr e ↦ e
        | inl e ↦ absurd (no (sym (eq→str_eq i k (sym (str_eq→eq k i e))) ∙ f))
      ]

  lookup-insert_self :
      (a b : List (Str × Str)) → has_key k (a ++ b) ≡ false → lookup k (a ++ ((k, v) ∷ b)) ≡ some v
  unfolding has_key
  lookup-insert_self [] b h = rw (str_eq_refl k) refl
  lookup-insert_self ((i, w) ∷ a) b h = elim (Bool-cases (str_eq i k)) [
    | inl f ↦ absurd (no (rw f at h))
    | inr f ↦ rw f (lookup-insert_self a b (rw f at h))
  ]
    where
      no : true ≡ false → ⊥
      no e = cc

  lookup-insert_other :
      (j : Str) (a b : List (Str × Str)) → j ≢ k → lookup j (a ++ ((k, v) ∷ b)) ≡ lookup j (a ++ b)
  lookup-insert_other j [] b ne = elim (Bool-cases (str_eq k j)) [
    | inl e ↦ absurd (ne (sym (str_eq→eq k j e)))
    | inr e ↦ rw e refl
  ]
  lookup-insert_other j ((i, w) ∷ a) b ne =
      ap (λ r. if str_eq i j then some w else r) (lookup-insert_other j a b ne)

-- What `emplace` of a key that is not there makes of the entries.
abbrev Inserted : Str → Str → List (Str × Str) → List (Str × Str) → Type 0
Inserted k v es es' = (a b : List (Str × Str)) × (es ≡ a ++ b) × (es' ≡ a ++ ((k, v) ∷ b))

record Added (k v : Str) (m : SmallHeaderMap) (r : Bool × SmallHeaderMap) : Type 0 where
  new : r.0 ≡ true
  inserted : Inserted k v (entries m) (entries r.1)
  room : length r.1.slots ≤ inline_capacity
  fit : Fit r.1.slots

emplace-Added :
    (k v : Str) (m : SmallHeaderMap)
    → IsValid m
    → contains m k ≡ false
    → Added k v m (emplace k v m)
unfolding emplace
emplace-Added k v m h e =
    let inline =
      ltb (length m.slots) inline_capacity
      && leb (length k) key_buffer_size
      && leb (length v) value_buffer_size in
    elim (Bool-cases inline) [
      | inl f ↦
          rw (e, f)
            (record {
              new = refl;
              inserted = (m.slots, m.overflow, refl, append_assoc m.slots ((k, v) ∷ []) m.overflow);
              room = ground (arith, length-append m.slots ((k, v) ∷ []));
              fit = Fit-append m.slots ((k, v) ∷ []) h.fit (ground arith, ground arith, tt);
            })
      | inr f ↦
          rw (e, f)
            (record {
              new = refl;
              inserted = (
                entries m,
                [],
                sym (append-nil (entries m)),
                sym (append_assoc m.slots m.overflow ((k, v) ∷ [])),
              );
              room = h.room;
              fit = h.fit;
            })
    ]

contains-entries : (m : SmallHeaderMap) (k : Str) → contains m k ≡ has_key k (entries m)
unfolding contains
contains-entries m k = sym (has_key-append k m.slots m.overflow)

-- What the lookups see after an `emplace` that gives `r`.
record Wins (k v : Str) (m : SmallHeaderMap) (r : Bool × SmallHeaderMap) : Type 0 where
  valid : IsValid r.1
  new : r.0 ≡ not (contains m k)
  self : lookup k (entries r.1) ≡ (if contains m k then lookup k (entries m) else some v)
  others : (j : Str) → j ≢ k → lookup j (entries r.1) ≡ lookup j (entries m)

Added-Wins :
    (k v : Str) (m : SmallHeaderMap) (r : Bool × SmallHeaderMap)
    → IsValid m
    → contains m k ≡ false
    → Added k v m r
    → Wins k v m r
Added-Wins k v m r h e g =
    let (a, b, before, after) = g.inserted in
    let new_key : has_key k (a ++ b) ≡ false =
      ap (has_key k) (sym before) ∙ sym (contains-entries m k) ∙ e in
    record {
      valid = record {
        room = g.room;
        fit = g.fit;
        distinct =
            subst Distinct (sym after)
              (Distinct-insert k v a b (subst Distinct before h.distinct) new_key);
      };
      new = rw e g.new;
      self = rw e (ap (lookup k) after ∙ lookup-insert_self k v a b new_key);
      others = λ j ne.
          ap (lookup j) after ∙ lookup-insert_other k v j a b ne ∙ ap (lookup j) (sym before);
    }

-- An `emplace` on a valid map gives a valid map: at most eight slots, that hold their entries, and
-- no key twice. It inserts just if the key is not there. Then a lookup of the key gives the value
-- that was there before, or else the new one, and that of another key gives what it gave.
pub emplace-Wins :
    (k v : Str) (m : SmallHeaderMap)
    → IsValid m
    → IsValid (emplace k v m).1
      × ((emplace k v m).0 ≡ not (contains m k))
      × (lookup k (entries (emplace k v m).1)
          ≡ (if contains m k then lookup k (entries m) else some v))
      × ((j : Str) → j ≢ k → lookup j (entries (emplace k v m).1) ≡ lookup j (entries m))
unfolding emplace
emplace-Wins k v m h = elim (Bool-cases (contains m k)) [
  | inl e ↦ rw e (h, refl, refl, λ j ne. refl)
  | inr e ↦
      let w = Added-Wins k v m (emplace k v m) h e (emplace-Added k v m h e) in
      (w.valid, w.new, w.self, w.others)
]

-- `entry` enumerates the entries, the slots first, and `size` counts them.
pub entry-entries :
    (m : SmallHeaderMap) (i : ℕ)
    → (entry m i ≡ get_elem? (entries m) i) × (size m ≡ length (entries m))
unfolding entry size
entry-entries m i = (entry_at m.slots m.overflow i, sym (length-append m.slots m.overflow))
  where
    entry_at :
        (a b : List (Str × Str)) (i : ℕ)
        → (if ltb i (length a) then get_elem? a i else get_elem? b (i - length a))
          ≡ get_elem? (a ++ b) i
    entry_at [] b i =
        let e : ltb i 0 ≡ false = ground arith in rw e (ap (get_elem? b) (omega arith))
    entry_at (x ∷ a) b zero = let e : ltb 0 (suc (length a)) ≡ true = ground arith in rw e refl
    entry_at (x ∷ a) b (suc i) = elim (Bool-cases (ltb i (length a))) [
      | inl e ↦
          let e' : ltb (suc i) (suc (length a)) ≡ true = ground arith in
          let ih = entry_at a b i in rw e' (rw e at ih)
      | inr e ↦
          let e' : ltb (suc i) (suc (length a)) ≡ false = ground arith in
          let ih = entry_at a b i in
          let same : suc i - suc (length a) ≡ i - length a = omega arith in
          rw (e', same) (rw e at ih)
    ]

-- A key that was inserted is there.
pub contains-emplace : (k v : Str) (m : SmallHeaderMap) → contains (emplace k v m).1 k ≡ true
unfolding contains emplace has_key
contains-emplace k v m = elim (Bool-cases (contains m k)) [
  | inl e ↦ rw e e
  | inr e ↦
      let inline =
        ltb (length m.slots) inline_capacity
        && leb (length k) key_buffer_size
        && leb (length v) value_buffer_size in
      let self = str_eq_refl k in
      elim (Bool-cases inline) [
        | inl f ↦ rw (e, f) (rw (has_key-append k m.slots ((k, v) ∷ []), self) (ground arith))
        | inr f ↦ rw (e, f) (rw (has_key-append k m.overflow ((k, v) ∷ []), self) (ground arith))
      ]
]
