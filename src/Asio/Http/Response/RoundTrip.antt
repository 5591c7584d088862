-- ===== src/Asio/Http/Response/RoundTrip.antt =====
-- The head of a response is parsed back by the client's side.
use net_cpp.Prelude.{
  ℕ, ◌+◌, ◌≡◌, refl, sym, ap, ap₂, ◌∙◌, inl, inr, Bool, true, false, not, Option, none, some, [],
  ◌∷◌, ◌++◌, append-nil, append_assoc, arith, ◌==◌, some_inj, Bool-cases, Option-cases, length,
  get_elem?, drop, drop-append, Str, codes, all_below, all_below_sound,
}
use net_cpp.Prelude.Search.{find_char, drop-drop}
use net_cpp.Prelude.Lists.{get_elem?-lt}
use mathlib.Core.Path.{subst}
use net_cpp.Errc.{ok}
use net_cpp.Http.Proto.{
  version_strings, version_to_string, status_strings, status_codes, to_index, status_to_string,
  status_of_string, status_unknown,
}
use net_cpp.Http.Line.{Word, is_word, words_of_table, line_text, split}
use net_cpp.Http.Proto.Laws.{IsListed, status_round_trip}
use net_cpp.Http.Message.{MessageRestView, Headers}
use net_cpp.Http.Message
use net_cpp.Http.Message.Print.{line_of, lines_of, puts, Printable, parse-lines}
use net_cpp.Asio.Http.Response.{
  StatusLineView, on_separators, on_line, parse, SmallHeaderMap, contains, ResponsePart, crlf,
  api_version, both, line_texts, text_entries, text_server, text_of, to_string,
}
use net_cpp.Asio.Http.Response.Map.{entries}

version-Word : (version : ℕ) (s : Str) → version_to_string version ≡ some s → Word s
unfolding version_to_string all_below
version-Word version s h = elim (Bool-cases (version == 0xff)) [
  | inl e ↦ subst Word (some_inj (rw e at h)) (record { no_blank = refl; no_return = refl })
  | inr e ↦ words_of_table version_strings version s words (rw e at h)
]
  where
    words : all_below 4 (λ i. is_word (get_elem? version_strings i)) ≡ true
    words = refl

status-Word : (status : ℕ) (s : Str) → status_to_string status ≡ some s → Word s
unfolding status_to_string to_index all_below
status-Word status s h = words_of_table status_strings (to_index status) s words h
  where
    words : all_below 44 (λ i. is_word (get_elem? status_strings i)) ≡ true
    words = refl

-- The text as one list: the line, the headers and the empty line.
text_entries-lines : (m : Headers) (res : Str) → text_entries m res ≡ res ++ lines_of m
unfolding text_entries
text_entries-lines [] res = sym (append-nil res)
text_entries-lines ((k, v) ∷ m) res =
    text_entries-lines m _
    ∙ ap (λ l. l ++ lines_of m)
        (append_assoc ((res ++ k) ++ codes ": ") v crlf
          ∙ append_assoc (res ++ k) (codes ": ") (v ++ crlf)
          ∙ append_assoc res k (codes ": " ++ (v ++ crlf)))
    ∙ append_assoc res (line_of k v) (lines_of m)

-- The headers that are sent: the entries, and the server unless they name one.
abbrev server_header : Bool → Headers
server_header true = []
server_header false = (codes "Server", api_version) ∷ []

abbrev pub sent_headers : SmallHeaderMap → Headers
sent_headers m = entries m ++ server_header (contains m (codes "Server"))

text_server-lines : (b : Bool) (res : Str) → text_server b res ≡ res ++ lines_of (server_header b)
unfolding text_server
text_server-lines true res = sym (append-nil res)
text_server-lines false res =
    append_assoc (res ++ codes "Server: ") api_version crlf
    ∙ append_assoc res (codes "Server: ") (api_version ++ crlf)

lines_append : (a b : Headers) → lines_of (a ++ b) ≡ lines_of a ++ lines_of b
lines_append [] b = refl
lines_append ((k, v) ∷ a) b =
    ap (λ l. line_of k v ++ l) (lines_append a b)
    ∙ sym (append_assoc (line_of k v) (lines_of a) (lines_of b))

text_of-lines :
    (p : ResponsePart) (v s : Str)
    → text_of p (v, s)
      ≡ line_text v s p.status_message ++ (13 ∷ 10 ∷ (lines_of (sent_headers p.headers) ++ crlf))
unfolding text_of
text_of-lines p v s =
    let m = p.headers in
    let server = server_header (contains m (codes "Server")) in
    let line : ((((v ++ codes " ") ++ s) ++ codes " ") ++ p.status_message) ++ crlf
        ≡ line_text v s p.status_message ++ crlf =
      ap (λ l. l ++ crlf)
        (append_assoc ((v ++ codes " ") ++ s) (codes " ") p.status_message
          ∙ append_assoc (v ++ codes " ") s (codes " " ++ p.status_message)
          ∙ append_assoc v (codes " ") (s ++ (codes " " ++ p.status_message))) in
    let all : lines_of m.slots ++ (lines_of m.overflow ++ lines_of server)
        ≡ lines_of (sent_headers m) =
      sym (append_assoc (lines_of m.slots) _ _)
      ∙ ap (λ l. l ++ lines_of server) (sym (lines_append m.slots m.overflow))
      ∙ sym (lines_append (entries m) server) in
    let start = (((((v ++ codes " ") ++ s) ++ codes " ") ++ p.status_message) ++ crlf) in
    ap (λ l. l ++ crlf)
      (text_server-lines (contains m (codes "Server")) _
        ∙ ap (λ l. l ++ lines_of server)
            (text_entries-lines m.overflow _
              ∙ ap (λ l. l ++ lines_of m.overflow) (text_entries-lines m.slots start))
        ∙ append_assoc (start ++ lines_of m.slots) _ _
        ∙ append_assoc start _ _
        ∙ ap₂ ◌++◌ line all)
    ∙ append_assoc (line_text v s p.status_message ++ crlf) _ _
    ∙ append_assoc (line_text v s p.status_message) _ _

-- A status line is parsed into its parts.
parse-line_text :
    (matches : Str → Bool) (l : StatusLineView) (v s message r : Str)
    → Word v
    → Word s
    → find_char 13 message ≡ none
    → matches v ≡ true
    → (status_of_string s == status_unknown) ≡ false
    → parse matches l (line_text v s message ++ (13 ∷ 10 ∷ r)) ≡ (
      length (line_text v s message) + 2,
      ok,
      record { version = v; status_code = status_of_string s; status_message = message },
    )
unfolding parse on_line on_separators
parse-line_text matches l v s message r hv hs hm m u =
    let c = split v s message r hv hs hm in
    rw (c.end_found, c.line, c.first)
      (rw (c.behind, c.second) (rw (c.start, c.behind, c.middle, m, u, c.last) refl))

-- The texts of the line, from the parts.
both-some : (a b : Option Str) (t : Str × Str) → both a b ≡ some t → (a ≡ some t.0) × (b ≡ some t.1)
both-some none b t e = absurd (no e)
  where
    no : ◌≡◌ {A = Option (Str × Str)} none (some t) → ⊥
    no e = cc
both-some (some v) none t e = absurd (no e)
  where
    no : ◌≡◌ {A = Option (Str × Str)} none (some t) → ⊥
    no e = cc
both-some (some v) (some s) t e =
    (ap (λ (o : Str × Str). some o.0) (some_inj e), ap (λ (o : Str × Str). some o.1) (some_inj e))

listed_ne : (c : ℕ) → IsListed c → (c == status_unknown) ≡ false
unfolding all_below
listed_ne c (i, e) = other (
    ap other_code (sym e)
    ∙ all_below_sound 44 (λ i. other_code (get_elem? status_codes i)) i refl
        (get_elem?-lt status_codes i c e))
  where
    other_code : Option ℕ → Bool
    other_code none = false
    other_code (some c) = not (c == status_unknown)

    other : not (c == status_unknown) ≡ true → (c == status_unknown) ≡ false
    other h = ground arith

listed_known : (c : ℕ) (s : Str) → IsListed c → status_to_string c ≡ some s → status_of_string s ≡ c
listed_known c s l e =
    let (s', e', f) = status_round_trip c l in ap status_of_string (some_inj (sym e ∙ e')) ∙ f

-- The text of a response for an enumerated status, whose message has no carriage return and whose
-- headers are printable, with a body behind it, is read back in two steps. The status line gives
-- the text of the version, the status and the message, if the expression for versions accepts that
-- text; and the headers behind that line give the entries, with a Server header unless there is one,
-- and the body.
pub to_string-parse :
    (matches : Str → Bool) (l : StatusLineView) (p : ResponsePart) (head body : Str)
    → to_string p ≡ some head
    → IsListed p.status_code
    → find_char 13 p.status_message ≡ none
    → Printable (sent_headers p.headers)
    → ((v : Str) → version_to_string p.version ≡ some v → matches v ≡ true)
    → (n k : ℕ) × (v : Str) × (version_to_string p.version ≡ some v)
      × (parse matches l (head ++ body) ≡ (
        n,
        ok,
        record { version = v; status_code = p.status_code; status_message = p.status_message },
      ))
      × (Message.parse (record { headers = []; content_part = [] }) (drop n (head ++ body))
          ≡ some
              (k, ok, record { headers = puts (sent_headers p.headers) []; content_part = body }))
unfolding to_string line_texts
to_string-parse matches l p head body h listed hm hp accepts = elim (Option-cases (line_texts p)) [
  | inl e ↦ absurd (no (rw e at h))
  | inr ((v, s), e) ↦
      let (ev, es) = both-some _ _ (v, s) e in
      let rest = lines_of (sent_headers p.headers) ++ (13 ∷ 10 ∷ body) in
      let line = line_text v s p.status_message in
      let known = listed_known p.status_code s listed es in
      let headers = lines_of (sent_headers p.headers) in
      let text : head ++ body ≡ line ++ (13 ∷ 10 ∷ rest) =
        ap (λ l. l ++ body) (sym (some_inj (rw e at h)) ∙ text_of-lines p v s)
        ∙ append_assoc line (13 ∷ 10 ∷ (headers ++ crlf)) body
        ∙ ap (λ l. line ++ (13 ∷ 10 ∷ l)) (append_assoc headers crlf body) in
      let behind : drop (length line + 2) (line ++ (13 ∷ 10 ∷ rest)) ≡ rest =
        sym (drop-drop (length line) 2 _) ∙ ap (drop 2) (drop-append line (13 ∷ 10 ∷ rest)) in
      (
        length line + 2,
        length headers + 2,
        v,
        ev,
        ap (parse matches l) text
            ∙ parse-line_text matches l v s p.status_message rest (version-Word p.version v ev)
                (status-Word p.status_code s es) hm (accepts v ev)
                (ap (λ c. c == status_unknown) known ∙ listed_ne p.status_code listed)
            ∙ ap
                (λ c. (
                  length line + 2,
                  ok,
                  record { version = v; status_code = c; status_message = p.status_message },
                ))
                known,
        ap (λ t. Message.parse (record { headers = []; content_part = [] }) t)
              (ap (drop (length line + 2)) text ∙ behind)
            ∙ parse-lines (sent_headers p.headers) _ body hp,
      )
]
  where
    no : ◌≡◌ {A = Option Str} none (some head) → ⊥
    no e = cc
