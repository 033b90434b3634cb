-- ===== src/Errors/Names.antt =====
-- The wire names of the error codes (cpp/src/errors.cpp) read back.
use mini_ocs_nos.Base.{◌≡◌, ◌≢◌, ◌↔◌, ◌∙◌, ap, refl, sym, ◌⊎◌, inl, inr, List, [], ◌∷◌, arith}
use mini_ocs_nos.Base.Text.{Text, codes, text_discrete}
use mini_ocs_nos.Errors.{ErrorCode, to_string, searched_codes, first_named, error_code_from_string}

-- Every error code is read back from its name.
pub error_code_from_string-to_string : (c : ErrorCode) → error_code_from_string (to_string c) ≡ c
unfolding error_code_from_string to_string codes text_discrete
error_code_from_string-to_string ErrorCode.ok = refl
error_code_from_string-to_string _ = refl

first_named-to_string :
    (cs : List ErrorCode) (v : Text)
    → (to_string (first_named cs v) ≡ v) ⊎ (first_named cs v ≡ ErrorCode.internal_error)
unfolding first_named
first_named-to_string [] v = inr refl
first_named-to_string (c ∷ cs) v = ground (arith, first_named-to_string cs v)

-- A text is read as the code that it names; one that names no code, as internal_error.
pub to_string-error_code_from_string :
    (v : Text)
    → (to_string (error_code_from_string v) ≡ v)
      ⊎ (error_code_from_string v ≡ ErrorCode.internal_error)
unfolding error_code_from_string
to_string-error_code_from_string v = first_named-to_string searched_codes v

-- The text is the name of no error code.
abbrev pub IsUnknown : Text → Type 0
IsUnknown v = (c : ErrorCode) → v ≢ to_string c

internal_error-cases :
    (v : Text)
    → error_code_from_string v ≡ ErrorCode.internal_error
    → (v ≡ to_string ErrorCode.internal_error) ⊎ IsUnknown v
internal_error-cases v e = elim (text_discrete v (to_string ErrorCode.internal_error)) [
  | yes p ↦ inl p
  | no n ↦ inr λ c q.
      let same : error_code_from_string v ≡ c =
        ap error_code_from_string q ∙ error_code_from_string-to_string c in
      n (q ∙ ap to_string (sym same ∙ e))
]

-- A text is read as a code exactly if it is that code's name, or the code is internal_error and
-- the text is the name of no code.
pub error_code_from_string_iff :
    (v : Text) (c : ErrorCode)
    → (error_code_from_string v ≡ c)
      ↔ ((v ≡ to_string c) ⊎ ((c ≡ ErrorCode.internal_error) × IsUnknown v))
error_code_from_string_iff v c = (
  λ e. elim (to_string-error_code_from_string v) [
    | inl named ↦ inl (sym named ∙ ap to_string e)
    | inr other ↦ elim (internal_error-cases v other) [
      | inl p ↦ inl (p ∙ ap to_string (sym other ∙ e))
      | inr unknown ↦ inr (sym e ∙ other, unknown)
    ]
  ],
  λ e. elim e [
    | inl p ↦ ap error_code_from_string p ∙ error_code_from_string-to_string c
    | inr (i, unknown) ↦ elim (to_string-error_code_from_string v) [
      | inl named ↦ absurd (unknown (error_code_from_string v) (sym named))
      | inr other ↦ other ∙ sym i
    ]
  ],
)
