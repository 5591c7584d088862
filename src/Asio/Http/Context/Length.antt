-- ===== src/Asio/Http/Context/Length.antt =====
-- A length as a decimal text.
use net_cpp.Prelude.{
  ℕ, zero, suc, ◌+◌, ◌-◌, ◌*◌, ◌/◌, ◌%◌, ◌<◌, ◌≡◌, refl, ap, ◌∙◌, inl, inr, false, some, [], ◌∷◌,
  arith, ◌==◌, Bool-cases, length, Str, codes,
}
use net_cpp.Http.Message.{lookup}
use net_cpp.Asio.Http.Response.{ResponsePart, contains}
use net_cpp.Asio.Http.Response.Map.{IsValid, entries, emplace-Wins}
use net_cpp.Asio.Http.Response.Sendto.{ResponseBuilder}
use net_cpp.Asio.Http.Context.{HandleContext, with_response, decimal_from, decimal, resp_text}

-- The value of decimal digits behind those of `v`.
abbrev pub value_of : ℕ → Str → ℕ
value_of v [] = v
value_of v (c ∷ cs) = value_of (v * 10 + (c - 48)) cs

value_of-decimal_from : (f n : ℕ) (s : Str) → n < f → value_of 0 (decimal_from f n s) ≡ value_of n s
unfolding decimal_from
value_of-decimal_from zero n s h = absurd (omega arith)
value_of-decimal_from (suc f) n s h = elim (Bool-cases (n / 10 == 0)) [
  | inl e ↦
      let small : 0 + (n % 10 + 48 - 48) ≡ n = ground arith in rw e (ap (λ v. value_of v s) small)
  | inr e ↦
      let back : n / 10 * 10 + (n % 10 + 48 - 48) ≡ n = omega arith in
      rw e (
        value_of-decimal_from f (n / 10) ((n % 10 + 48) ∷ s) (ground arith)
        ∙ ap (λ v. value_of v s) back)
]

value_of-decimal : (n : ℕ) → value_of 0 (decimal n) ≡ n
unfolding decimal
value_of-decimal n = value_of-decimal_from (suc n) n [] (omega arith)

abbrev pub content_length : Str
content_length = codes "Content-Length"

-- A response with a string as its body, made from a part with valid headers that have no
-- Content-Length, has that string as its body and a Content-Length whose decimal value is its length.
resp_text-Length :
    (part : ResponsePart) (body : Str) (c : HandleContext)
    → IsValid part.headers
    → contains part.headers content_length ≡ false
    → (r : ResponseBuilder) × (text : Str) × ((resp_text part body c).response ≡ some r)
      × (r.raw_body ≡ body)
      × IsValid r.part.headers
      × (lookup content_length (entries r.part.headers) ≡ some text)
      × (value_of 0 text ≡ length body)
unfolding resp_text with_response
resp_text-Length part body c h e =
    let (valid, _, self, _) = emplace-Wins content_length (decimal (length body)) part.headers h in
    (_, decimal (length body), refl, refl, valid, rw e at self, value_of-decimal (length body))
