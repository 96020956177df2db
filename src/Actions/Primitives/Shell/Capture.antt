-- ===== src/Actions/Primitives/Shell/Capture.antt =====
-- What is kept of the output of a command (src/actions/primitives.ts).
use bfrost.Prelude.{
  ℕ, zero, suc, ◌+◌, ◌-◌, List, [], ◌∷◌, ◌++◌, ◌≡◌, refl, ap, sym, ◌∙◌, length, ltb, min,
  Bool-cases, inl, inr, arith,
}
use bfrost.Actions.Primitives.Shell.{take_bytes, captured, concat_chunks}

take_none : (n : ℕ) → [] ≡ take_bytes n []
take_none zero = refl
take_none (suc n) = refl

take_bytes-append :
    (n : ℕ) (xs ys : List ℕ)
    → take_bytes n (xs ++ ys) ≡ take_bytes n xs ++ take_bytes (n - length xs) ys
take_bytes-append zero [] ys = refl
take_bytes-append (suc n) [] ys =
    let all : suc n ≡ suc n - 0 = omega arith in ap (λ k. take_bytes k ys) all
take_bytes-append zero (x ∷ xs) ys =
    let none_left : 0 ≡ 0 - suc (length xs) = omega arith in ap (λ k. take_bytes k ys) none_left
take_bytes-append (suc n) (x ∷ xs) ys =
    let left : n - length xs ≡ suc n - suc (length xs) = omega arith in
    ap (λ rest. x ∷ rest)
      (take_bytes-append n xs ys ∙ ap (λ k. take_bytes n xs ++ take_bytes k ys) left)

captured_from :
    (max_bytes size : ℕ) (chunks : List (List ℕ))
    → concat_chunks (captured max_bytes size chunks)
      ≡ take_bytes (max_bytes - size) (concat_chunks chunks)
unfolding captured concat_chunks
captured_from max_bytes size [] = take_none (max_bytes - size)
captured_from max_bytes size (chunk ∷ chunks) =
    let remaining = max_bytes - size in
    let rest = concat_chunks chunks in
    elim (Bool-cases (ltb 0 remaining)) [
      | inl e ↦
          let left : max_bytes - (size + min (length chunk) remaining) ≡ remaining - length chunk =
            omega arith in
          rw (captured, concat_chunks, e)
            (ap (λ kept. take_bytes remaining chunk ++ kept)
                (captured_from max_bytes (size + min (length chunk) remaining) chunks
                  ∙ ap (λ k. take_bytes k rest) left)
              ∙ sym (take_bytes-append remaining chunk rest))
      | inr e ↦
          let full : remaining ≡ 0 = ground (arith, e) in
          rw (captured, e)
            (captured_from max_bytes size chunks
              ∙ (ap (λ k. take_bytes k rest) full
                  ∙ ap (λ k. take_bytes k (chunk ++ rest)) (sym full)))
    ]

-- However a stream is cut into chunks, what is kept of it is its first bytes, up to the limit.
pub captured-prefix :
    (max_bytes : ℕ) (chunks : List (List ℕ))
    → concat_chunks (captured max_bytes 0 chunks) ≡ take_bytes max_bytes (concat_chunks chunks)
captured-prefix max_bytes chunks =
    let all : max_bytes - 0 ≡ max_bytes = omega arith in
    captured_from max_bytes 0 chunks ∙ ap (λ k. take_bytes k (concat_chunks chunks)) all
