-- ===== src/Actions/Diff.antt =====
-- The preview of a change (`buildDiff` of src/actions/primitives.ts). The two indices of the source
-- are the lists of lines that are left from them on.
pub mod Preview
use bfrost.Prelude.{
  ℕ, zero, suc, ◌+◌, ◌-◌, String, Bool, true, false, not, Option, none, some, List, [], ◌∷◌, ◌++◌,
  min, take, length, str_eq, concat_texts, decimal, if◌then◌else◌, map,
}

pub data ChangeType : Type 0 where
  added removed context : ChangeType

pub record Change : Type 0 where
  pub type : ChangeType
  pub line : String

abbrev pub change : ChangeType → String → Change
change type line = record { type = type; line = line }

abbrev pub drop : ℕ → List String → List String
drop zero xs = xs
drop (suc n) [] = []
drop (suc n) (x ∷ xs) = drop n xs

-- `lines[at + look] === line`.
pub at_is : ℕ → List String → String → Bool
at_is look [] line = false
at_is zero (x ∷ xs) line = str_eq x line
at_is (suc look) (x ∷ xs) line = at_is look xs line

pub push_all : ChangeType → List String → List Change
push_all type [] = []
push_all type (x ∷ xs) = change type x ∷ push_all type xs

-- Which side is ahead, and by how many lines.
pub data Ahead : Type 0 where
  new_ahead old_ahead : ℕ → Ahead
  unmatched : Ahead

pub look_ahead : String → String → List String → List String → Ahead
unfolding at_is
look_ahead o n old_lines new_lines =
    if at_is 1 new_lines o
    then new_ahead 1
    else if at_is 1 old_lines n
    then old_ahead 1
    else if at_is 2 new_lines o
    then new_ahead 2
    else if at_is 2 old_lines n
    then old_ahead 2
    else unmatched

-- The loop over both lists, each round of which takes a line off one of them.
pub align : ℕ → List String → List String → List Change
unfolding look_ahead push_all
align fuel [] [] = []
align zero old_lines new_lines = []
align (suc fuel) [] (n ∷ new_lines) = change added n ∷ align fuel [] new_lines
align (suc fuel) (o ∷ old_lines) [] = change removed o ∷ align fuel old_lines []
align (suc fuel) (o ∷ old_lines) (n ∷ new_lines) =
    let same = align fuel old_lines new_lines in
    if str_eq o n
    then change context o ∷ same
    else elim (look_ahead o n (o ∷ old_lines) (n ∷ new_lines)) [
      | new_ahead look ↦
          push_all added (take look (n ∷ new_lines))
          ++ align fuel (o ∷ old_lines) (drop look (n ∷ new_lines))
      | old_ahead look ↦
          push_all removed (take look (o ∷ old_lines))
          ++ align fuel (drop look (o ∷ old_lines)) (n ∷ new_lines)
      | unmatched ↦ change removed o ∷ change added n ∷ same
    ]

-- Enough rounds: the lines of both sides.
pub changes_of : List String → List String → List Change
unfolding align
changes_of old_lines new_lines = align (length old_lines + length new_lines) old_lines new_lines

is_change : Change → Bool
is_change c = elim (c.type) [ context ↦ false | _ ↦ true ]

-- The indices of the changed lines, from an index on.
changed_idxs : ℕ → List Change → List ℕ
unfolding is_change
changed_idxs i [] = []
changed_idxs i (c ∷ changes) =
    let rest = changed_idxs (i + 1) changes in if is_change c then i ∷ rest else rest

last_of : ℕ → List ℕ → ℕ
last_of x [] = x
last_of x (y ∷ ys) = last_of y ys

sign : ChangeType → String
sign added = "+"
sign removed = "-"
sign context = " "

change_line : Change → String
unfolding sign
change_line c = concat_texts (sign c.type ∷ c.line ∷ [])

-- `lines.join('\n')`.
join_lines : List String → String
join_lines [] = ""
join_lines (x ∷ []) = x
join_lines (x ∷ y ∷ xs) = concat_texts (x ∷ "\n" ∷ join_lines (y ∷ xs) ∷ [])

drop_changes : ℕ → List Change → List Change
drop_changes zero xs = xs
drop_changes (suc n) [] = []
drop_changes (suc n) (x ∷ xs) = drop_changes n xs

-- The lines of the hunk: from three before the first change to three after the last.
hunk_lines : ℕ → List ℕ → List Change → List String
unfolding last_of change_line drop_changes
hunk_lines first others changes =
    let hunk_start = first - 3 in
    let hunk_end = min (length changes - 1) (last_of first others + 3) in
    map change_line (take (hunk_end + 1 - hunk_start) (drop_changes hunk_start changes))

diff_text : String → List Change → List ℕ → String
unfolding hunk_lines join_lines
diff_text header changes [] = concat_texts (header ∷ "(no changes)\n" ∷ [])
diff_text header changes (first ∷ others) =
    let at = decimal (first - 3 + 1) in
    concat_texts (
      header
      ∷ "@@ -"
      ∷ at
      ∷ " +"
      ∷ at
      ∷ " @@\n"
      ∷ join_lines (hunk_lines first others changes)
      ∷ [])

pub build_diff : List String → List String → String → String
unfolding changes_of changed_idxs diff_text
build_diff old_lines new_lines file_path =
    let header =
      concat_texts ("--- " ∷ file_path ∷ " (existing)\n+++ " ∷ file_path ∷ " (proposed)\n" ∷ []) in
    let changes = changes_of old_lines new_lines in
    diff_text header changes (changed_idxs 0 changes)
