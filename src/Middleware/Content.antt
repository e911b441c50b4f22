-- ===== src/Middleware/Content.antt =====
-- app/middleware/request_id.py: which requests the middleware refuses for their content.
use umba_fx_engine.Prelude.{
  ℕ, ◌≡◌, refl, subst, ◌⊎◌, inl, inr, String, true, false, some, none, List, [], ◌∷◌, arith, eq_iff,
  str_eq, Bool-cases, Option-cases,
}
use umba_fx_engine.Text.{codes, same_codes, lower, before, strip}
use umba_fx_engine.Middleware.{Incoming, has_body_method, or_empty, has_unsupported_json_content}

-- The part of `Content-Type` before its parameters, in small letters; nothing without the header.
abbrev pub media_type : Incoming → List ℕ
media_type request = elim request.content_type [
  | none ↦ []
  | some s ↦ lower (strip (before b';' (codes s)))
]

same_codes-eq : (s t : List ℕ) → same_codes s t ≡ true → s ≡ t
same_codes-eq [] [] h = refl
same_codes-eq [] (b ∷ t) h = cc
same_codes-eq (a ∷ s) [] h = cc
same_codes-eq (a ∷ s) (b ∷ t) h =
    let (first, rest) : (a ≡ b) × (same_codes s t ≡ true) = ground arith in
    rw (first, same_codes-eq s t rest) refl

foreign-differs :
    (s : List ℕ)
    → ¬ (s ≡ codes "application/json")
    → same_codes s (codes "application/json") ≡ false
foreign-differs s foreign = elim (Bool-cases (same_codes s (codes "application/json"))) [
  | inl same ↦ absurd (foreign (same_codes-eq s (codes "application/json") same))
  | inr differs ↦ differs
]

nonzero_length : (n : String) → ¬ (n ≡ "0") → str_eq n "0" ≡ false
nonzero_length n nonempty = elim (Bool-cases (str_eq n "0")) [
  | inl same ↦ absurd (nonempty (ground (arith, eq_iff n "0")))
  | inr differs ↦ differs
]

body_method : (m : String) → (m ≡ "POST") ⊎ ((m ≡ "PUT") ⊎ (m ≡ "PATCH")) → has_body_method m ≡ true
body_method m (inl e) = rw e refl
body_method m (inr (inl e)) = rw e refl
body_method m (inr (inr e)) = rw e refl

media_type-or_empty :
    (request : Incoming)
    → media_type request ≡ lower (strip (before b';' (codes (or_empty request.content_type))))
media_type-or_empty request = elim (Option-cases request.content_type) [
  | inl nothing ↦ rw nothing refl
  | inr (s, given) ↦ rw given refl
]

-- The test of the middleware says so.
pub unsupported_content :
    (request : Incoming)
    → (request.method ≡ "POST") ⊎ ((request.method ≡ "PUT") ⊎ (request.method ≡ "PATCH"))
    → (length : String) → request.content_length ≡ some length
    → ¬ (length ≡ "0")
    → ¬ (media_type request ≡ codes "application/json")
    → has_unsupported_json_content request ≡ true
unfolding has_unsupported_json_content
unsupported_content request method length sized nonempty foreign =
    let differs =
      foreign-differs (lower (strip (before b';' (codes (or_empty request.content_type)))))
        (subst (λ s. ¬ (s ≡ codes "application/json")) (media_type-or_empty request) foreign) in
    rw (body_method request.method method, sized, nonzero_length length nonempty, differs) refl
