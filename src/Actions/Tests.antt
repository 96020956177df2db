-- ===== src/Actions/Tests.antt =====
-- The laws of the approval queue at a request that waits and one that was rejected.
use bfrost.Prelude.{none, some, List, [], ◌∷◌, ◌≡◌, refl, All}
use bfrost.Actions.Store.{StoredActionRequest, ActionClass, pending, rejected}
use bfrost.Actions.Store.Decisions.{
  IsRequest, ActionCall, approve, reject, after_actions, after_actions-IsRequest,
}
use bfrost.Actions.Store.Decisions.Final.{decision, after_actions-decision}
use bfrost.Actions.Diff.{changes_of}
use bfrost.Actions.Diff.Preview.{IsAligned, changes_of-IsAligned}

abbrev waiting : StoredActionRequest
waiting = record {
  id = "w";
  worker_id = "files";
  action_class = ActionClass.approved_write;
  label = "Write file";
  rationale = "";
  payload = [];
  preview = none;
  state = pending;
  created_at = 1;
  decided_at = none;
  executed_at = none;
  result = none;
}

abbrev refused : StoredActionRequest
refused = record waiting { id = "r"; state = rejected; decided_at = some 2 }

abbrev calls : List ActionCall
calls = approve 3 "r" ∷ approve 4 "w" ∷ reject 5 "w" ∷ []

after_actions_example : All IsRequest (after_actions calls (waiting ∷ refused ∷ []))
after_actions_example =
    after_actions-IsRequest calls (waiting ∷ refused ∷ []) ((refl, refl), (((2, refl), refl), tt))

decision_example : decision "r" (after_actions calls (waiting ∷ refused ∷ [])) ≡ some 2
decision_example =
    after_actions-decision calls (waiting ∷ refused ∷ []) "r" 2
      ((refl, refl), (((2, refl), refl), tt)) refl

preview_example :
    IsAligned
      ("a" ∷ "b" ∷ "c" ∷ [])
      ("a" ∷ "x" ∷ "c" ∷ "d" ∷ [])
      (changes_of ("a" ∷ "b" ∷ "c" ∷ []) ("a" ∷ "x" ∷ "c" ∷ "d" ∷ []))
preview_example = changes_of-IsAligned ("a" ∷ "b" ∷ "c" ∷ []) ("a" ∷ "x" ∷ "c" ∷ "d" ∷ [])
