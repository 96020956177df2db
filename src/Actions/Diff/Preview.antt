-- ===== src/Actions/Diff/Preview.antt =====
-- What the aligned lines of a preview say of the two files (`buildDiff` of src/actions/primitives.ts).
use bfrost.Prelude.{
  ℕ, zero, suc, ◌+◌, ◌≤◌, String, List, [], ◌∷◌, ◌++◌, ◌≡◌, refl, arith, take, length, ap, ◌∙◌,
  Bool-cases, inl, inr, str_eq, eq_iff,
}
use bfrost.Actions.Diff.{
  Change, added, removed, change, drop, at_is, push_all, Ahead, new_ahead, old_ahead, unmatched,
  look_ahead, align, changes_of,
}

-- The lines of the existing file: those that are not added.
abbrev pub old_side : List Change → List String
old_side [] = []
old_side (c ∷ changes) =
    let rest = old_side changes in elim (c.type) [ added ↦ rest | _ ↦ c.line ∷ rest ]

-- The lines of the proposed file: those that are not removed.
abbrev pub new_side : List Change → List String
new_side [] = []
new_side (c ∷ changes) =
    let rest = new_side changes in elim (c.type) [ removed ↦ rest | _ ↦ c.line ∷ rest ]

old_side-added :
    (xs : List String) (changes : List Change)
    → old_side (push_all added xs ++ changes) ≡ old_side changes
unfolding push_all
old_side-added [] changes = refl
old_side-added (x ∷ xs) changes = old_side-added xs changes

new_side-removed :
    (xs : List String) (changes : List Change)
    → new_side (push_all removed xs ++ changes) ≡ new_side changes
unfolding push_all
new_side-removed [] changes = refl
new_side-removed (x ∷ xs) changes = new_side-removed xs changes

old_side-removed :
    (xs : List String) (changes : List Change)
    → old_side (push_all removed xs ++ changes) ≡ xs ++ old_side changes
unfolding push_all
old_side-removed [] changes = refl
old_side-removed (x ∷ xs) changes = ap (λ ys. x ∷ ys) (old_side-removed xs changes)

new_side-added :
    (xs : List String) (changes : List Change)
    → new_side (push_all added xs ++ changes) ≡ xs ++ new_side changes
unfolding push_all
new_side-added [] changes = refl
new_side-added (x ∷ xs) changes = ap (λ ys. x ∷ ys) (new_side-added xs changes)

take-drop : (n : ℕ) (xs : List String) → take n xs ++ drop n xs ≡ xs
take-drop zero xs = refl
take-drop (suc n) [] = refl
take-drop (suc n) (x ∷ xs) = ap (λ ys. x ∷ ys) (take-drop n xs)

length-drop-suc :
    (n : ℕ) (x : String) (xs : List String) → length (drop (suc n) (x ∷ xs)) ≤ length xs
length-drop-suc zero x xs = omega arith
length-drop-suc (suc n) x [] = omega arith
length-drop-suc (suc n) x (y ∷ xs) = omega (arith, length-drop-suc n y xs)

-- The loop looks one or two lines ahead.
abbrev Forward : Ahead → Type 0
Forward (new_ahead look) = (k : ℕ) × (look ≡ suc k)
Forward (old_ahead look) = (k : ℕ) × (look ≡ suc k)
Forward unmatched = Unit {0}

look_ahead-Forward : (o n : String) (xs ys : List String) → Forward (look_ahead o n xs ys)
unfolding look_ahead
look_ahead-Forward o n xs ys = elim (Bool-cases (at_is 1 ys o)) [
  | inl a ↦ rw (look_ahead, a) (0, refl)
  | inr a ↦ elim (Bool-cases (at_is 1 xs n)) [
    | inl b ↦ rw (look_ahead, a, b) (0, refl)
    | inr b ↦ elim (Bool-cases (at_is 2 ys o)) [
      | inl c ↦ rw (look_ahead, a, b, c) (1, refl)
      | inr c ↦ elim (Bool-cases (at_is 2 xs n)) [
        | inl d ↦ rw (look_ahead, a, b, c, d) (1, refl)
        | inr d ↦ rw (look_ahead, a, b, c, d) tt
      ]
    ]
  ]
]

no_rounds : (lines : ℕ) → lines ≤ 0 → 1 ≤ lines → ⊥
no_rounds lines h k = omega (arith, h, k)

-- What the aligned lines are worth: both files can be read off.
pub record IsAligned (old_lines new_lines : List String) (changes : List Change) : Type 0 where
  pub old : old_side changes ≡ old_lines
  pub new : new_side changes ≡ new_lines

-- A round from lines that differ, for every outcome of the look ahead, if the rest is aligned.
module _ (fuel : ℕ) (o n : String) (xs ys : List String)
    (aligned : (old_lines new_lines : List String)
      → length old_lines + length new_lines ≤ fuel
      → IsAligned old_lines new_lines (align fuel old_lines new_lines))
    (enough : suc (length xs) + suc (length ys) ≤ suc fuel) where
  round-new :
      (look : ℕ)
      → IsAligned (o ∷ xs) (n ∷ ys) (
          push_all added (take (suc look) (n ∷ ys))
          ++ align fuel (o ∷ xs) (drop (suc look) (n ∷ ys)))
  round-new look =
      let rest =
        aligned (o ∷ xs) (drop (suc look) (n ∷ ys))
          (omega (arith, enough, length-drop-suc look n ys)) in
      record {
        old = old_side-added (take (suc look) (n ∷ ys)) _ ∙ rest.old;
        new =
            new_side-added (take (suc look) (n ∷ ys)) _
            ∙ ap (λ rest_new. take (suc look) (n ∷ ys) ++ rest_new) rest.new
            ∙ take-drop (suc look) (n ∷ ys);
      }

  round-old :
      (look : ℕ)
      → IsAligned (o ∷ xs) (n ∷ ys) (
          push_all removed (take (suc look) (o ∷ xs))
          ++ align fuel (drop (suc look) (o ∷ xs)) (n ∷ ys))
  round-old look =
      let rest =
        aligned (drop (suc look) (o ∷ xs)) (n ∷ ys)
          (omega (arith, enough, length-drop-suc look o xs)) in
      record {
        new = new_side-removed (take (suc look) (o ∷ xs)) _ ∙ rest.new;
        old =
            old_side-removed (take (suc look) (o ∷ xs)) _
            ∙ ap (λ rest_old. take (suc look) (o ∷ xs) ++ rest_old) rest.old
            ∙ take-drop (suc look) (o ∷ xs);
      }

  round-both : IsAligned (o ∷ xs) (n ∷ ys) (change removed o ∷ change added n ∷ align fuel xs ys)
  round-both =
      let rest = aligned xs ys (omega (arith, enough)) in
      record { old = ap (λ zs. o ∷ zs) rest.old; new = ap (λ zs. n ∷ zs) rest.new }

  round-ahead :
      (a : Ahead)
      → Forward a
      → IsAligned (o ∷ xs) (n ∷ ys) (elim a [
        | new_ahead look ↦
            push_all added (take look (n ∷ ys)) ++ align fuel (o ∷ xs) (drop look (n ∷ ys))
        | old_ahead look ↦
            push_all removed (take look (o ∷ xs)) ++ align fuel (drop look (o ∷ xs)) (n ∷ ys)
        | unmatched ↦ change removed o ∷ change added n ∷ align fuel xs ys
      ])
  round-ahead (new_ahead look) (k, e) = rw e (round-new k)
  round-ahead (old_ahead look) (k, e) = rw e (round-old k)
  round-ahead unmatched f = round-both

align-IsAligned :
    (fuel : ℕ) (old_lines new_lines : List String)
    → length old_lines + length new_lines ≤ fuel
    → IsAligned old_lines new_lines (align fuel old_lines new_lines)
unfolding align
align-IsAligned fuel [] [] h = record { old = refl; new = refl }
align-IsAligned zero [] (n ∷ ys) h =
    elim (no_rounds (length {A = String} [] + length (n ∷ ys)) h (omega arith)) [ ]
align-IsAligned zero (o ∷ xs) ys h =
    elim (no_rounds (length (o ∷ xs) + length ys) h (omega arith)) [ ]
align-IsAligned (suc fuel) [] (n ∷ ys) h =
    let rest = align-IsAligned fuel [] ys (omega (arith, h)) in
    record { old = rest.old; new = ap (λ zs. n ∷ zs) rest.new }
align-IsAligned (suc fuel) (o ∷ xs) [] h =
    let rest = align-IsAligned fuel xs [] (omega (arith, h)) in
    record { old = ap (λ zs. o ∷ zs) rest.old; new = rest.new }
align-IsAligned (suc fuel) (o ∷ xs) (n ∷ ys) h = elim (Bool-cases (str_eq o n)) [
  | inl e ↦
      let rest = align-IsAligned fuel xs ys (omega (arith, h)) in
      rw (align, e)
        record {
          old = ap (λ zs. o ∷ zs) rest.old;
          new = ap (λ zs. o ∷ zs) rest.new ∙ ap (λ z. z ∷ ys) ((eq_iff o n).0 e);
        }
  | inr e ↦
      rw (align, e)
        (round-ahead fuel o n xs ys (align-IsAligned fuel) h (look_ahead o n (o ∷ xs) (n ∷ ys))
          (look_ahead-Forward o n (o ∷ xs) (n ∷ ys)))
]

-- The loop ends within as many rounds as both files have lines, and of the lines that it leaves, those
-- that are not added are the existing file and those that are not removed are the proposed file.
pub changes_of-IsAligned :
    (old_lines new_lines : List String)
    → IsAligned old_lines new_lines (changes_of old_lines new_lines)
unfolding changes_of
changes_of-IsAligned old_lines new_lines =
    align-IsAligned (length old_lines + length new_lines) old_lines new_lines (omega arith)
