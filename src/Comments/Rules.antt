-- ===== src/Comments/Rules.antt =====
-- The handlers of server/src/controllers/commentController.ts under rely and guarantee.
use expense_management_syste.Base.{ℕ, List, [], ◌∷◌, arith, Text}
use expense_management_syste.Types.{Expense}
use expense_management_syste.Db.{StatementKeeps, Keeps, Keeps->>=, keeps, Evolves-of_same}
use expense_management_syste.Users
use expense_management_syste.Requests.{QueryValue}
use expense_management_syste.Notifications.{Actor, safe_create-Keeps}
use expense_management_syste.Expenses.Operations.{find_by_id-Keeps}
use expense_management_syste.Auth.{Request, GraphApi}
use expense_management_syste.Comments.{
  NewComment, insert_comment, select_comment, select_comments, create_comment, find_comments,
  notify_all, expense_comment, readable_expense, get_comments, add_comment,
}
use expense_management_syste.Handlers.Guarantee.{ensure_can_access_expense-Keeps}

insert_comment-StatementKeeps : (input : NewComment) → StatementKeeps (insert_comment input)
unfolding insert_comment
insert_comment-StatementKeeps input = record {
  apply = λ now d r d' h. Evolves-of_same d d' (ground arith) (ground arith);
}

select_comment-StatementKeeps : (k : ℕ) → StatementKeeps (select_comment k)
unfolding select_comment
select_comment-StatementKeeps k = record {
  apply = λ now d r d' h. Evolves-of_same d d' (ground arith) (ground arith);
}

select_comments-StatementKeeps : (k : ℕ) → StatementKeeps (select_comments k)
unfolding select_comments
select_comments-StatementKeeps k = record {
  apply = λ now d r d' h. Evolves-of_same d d' (ground arith) (ground arith);
}

create_comment-Keeps : (input : NewComment) → Keeps (create_comment input)
unfolding create_comment
create_comment-Keeps input =
    search (keeps, insert_comment-StatementKeeps, select_comment-StatementKeeps) depth 8

find_comments-Keeps : (k : ℕ) → Keeps (find_comments k)
unfolding find_comments
find_comments-Keeps k = search (keeps, select_comments-StatementKeeps)

notify_all-Keeps :
    (expense : Expense) (actor : Actor) (ks : List ℕ) → Keeps (notify_all expense actor ks)
unfolding notify_all
notify_all-Keeps expense actor [] = search keeps
notify_all-Keeps expense actor (k ∷ ks) =
    Keeps->>= (safe_create-Keeps _) (λ _. notify_all-Keeps expense actor ks)

expense_comment-Keeps : (expense : Expense) (actor : Actor) → Keeps (expense_comment expense actor)
unfolding expense_comment
expense_comment-Keeps expense actor = search (keeps, Users.find_by_id-Keeps, notify_all-Keeps)

module _ (graph : GraphApi) (req : Request) where
  readable_expense-Keeps : (raw_id : QueryValue) → Keeps (readable_expense graph req raw_id)
  unfolding readable_expense
  readable_expense-Keeps raw_id =
      search (keeps, find_by_id-Keeps, ensure_can_access_expense-Keeps) depth 11

  pub get_comments-Keeps : (raw_id : QueryValue) → Keeps (get_comments graph req raw_id)
  unfolding get_comments
  get_comments-Keeps raw_id = search (keeps, readable_expense-Keeps, find_comments-Keeps)

  pub add_comment-Keeps :
      (raw_id : QueryValue) (body : Text) → Keeps (add_comment graph req raw_id body)
  unfolding add_comment
  add_comment-Keeps raw_id body =
      search (keeps, readable_expense-Keeps, create_comment-Keeps, expense_comment-Keeps) depth 8
