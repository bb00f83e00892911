-- ===== src/Comments.antt =====
-- server/src/models/comment.ts and server/src/controllers/commentController.ts: the discussion of an
-- expense.
pub mod Rules
use expense_management_syste.Base.{
  ℕ, ◌+◌, Bool, true, false, ◌||◌, ◌&&◌, ltb, Option, none, some, List, [], ◌∷◌, ◌++◌, ◌≡◌, arith,
  Text, codes, ◌==◌, if◌then◌else◌, find?, filter, sort_by,
}
use expense_management_syste.Errors.{Error, not_found}
use expense_management_syste.Types.{User, Role, Expense, Comment, NotificationType}
use expense_management_syste.Db.{
  Db, M, pure, ◌>>=◌, ◌>>◌, attempt, or_raise, lift, Statement, StatementKeeps, query, Keeps, keeps,
  Evolves-of_same, find_user,
}
use expense_management_syste.Users
use expense_management_syste.Requests.{QueryValue, parse_positive_id, trim}
use expense_management_syste.Notifications.{Actor, safe_create, short_title}
use expense_management_syste.Expenses.{find_by_id}
use expense_management_syste.Auth.{Request, actor_of, GraphApi, ensure_can_access_expense}

pub record NewComment : Type 0 where
  pub expense_id : ℕ
  pub author_id : ℕ
  pub body : Text

-- `INSERT INTO comments`
unfoldable pub insert_comment : NewComment → Statement ℕ
insert_comment input now d =
    let new : Comment = record {
      id = d.next_comment;
      expense_id = input.expense_id;
      author_id = input.author_id;
      body = input.body;
      created_at = now;
    } in
    some (
      d.next_comment,
      record d { comments = d.comments ++ new ∷ []; next_comment = d.next_comment + 1 },
    )

-- A comment with the fields joined from `users`.
pub record CommentRow : Type 0 where
  pub comment : Comment
  pub author_name : Text
  pub author_role : Role

abbrev pub with_author : Comment → User → CommentRow
with_author c u = record { comment = c; author_name = u.display_name; author_role = u.role }

-- `FROM comments c JOIN users u ON c.author_id = u.id`: a comment without its author has no row.
abbrev pub join_authors : List User → List Comment → List CommentRow
join_authors users [] = []
join_authors users (c ∷ cs) = elim (find_user c.author_id users) [
  | none ↦ join_authors users cs
  | some u ↦ with_author c u ∷ join_authors users cs
]

abbrev pub first : {A : Type 0} → List A → Option A
first [] = none
first (x ∷ _) = some x

unfoldable pub select_comment : ℕ → Statement (Option CommentRow)
select_comment k now d = some (first (join_authors d.users (filter (λ c. c.id == k) d.comments)), d)

-- `ORDER BY c.created_at ASC, c.id ASC`
abbrev pub earlier : CommentRow → CommentRow → Bool
earlier a b =
    ltb a.comment.created_at b.comment.created_at
    || (a.comment.created_at == b.comment.created_at) && ltb a.comment.id b.comment.id

unfoldable pub select_comments : ℕ → Statement (List CommentRow)
select_comments k now d =
    some (sort_by earlier (join_authors d.users (filter (λ c. c.expense_id == k) d.comments)), d)

-- `commentModel.create`
unfoldable pub create_comment : NewComment → M CommentRow
create_comment input = do
  k ← query (insert_comment input)
  found ← query (select_comment k)
  or_raise found Error.failure

-- `commentModel.findByExpenseId`
unfoldable pub find_comments : ℕ → M (List CommentRow)
find_comments k = query (select_comments k)

-- The recipients of a comment, from the owner and the row of the owner: a set in the order of insertion,
-- without the actor.
abbrev pub recipients_of : ℕ → Option User → ℕ → List ℕ
recipients_of owner found actor =
    let others : List ℕ = elim found [
      | none ↦ []
      | some u ↦ elim u.manager_id [
        | none ↦ []
        | some k ↦ if (k == 0) || (k == owner) then [] else k ∷ []
      ]
    ] in
    filter (λ k. if k == actor then false else true) (owner ∷ others)

-- The loop over the recipients.
unfoldable pub notify_all : Expense → Actor → List ℕ → M (Unit {0})
notify_all expense actor [] = pure tt
notify_all expense actor (k ∷ ks) =
    safe_create (record {
      user_id = k;
      kind = NotificationType.expense_comment;
      expense_id = expense.id;
      actor_id = actor.id;
      message =
          actor.display_name
          ++ (codes " commented on \"" ++ (short_title expense.title ++ codes "\""));
    })
    >> notify_all expense actor ks

-- `expenseComment`
unfoldable pub expense_comment : Expense → Actor → M (Unit {0})
unfolding notify_all
expense_comment expense actor =
    attempt
      (do
        owner ← Users.find_by_id expense.submitted_by
        notify_all expense actor (recipients_of expense.submitted_by owner actor.id))
      (λ _. pure tt)

module _ (graph : GraphApi) (req : Request) where
  -- The first lines of both handlers.
  unfoldable pub readable_expense : QueryValue → M (ℕ × Expense)
  readable_expense raw_id = do
    expense_id ← lift (parse_positive_id raw_id "expense ID")
    found ← find_by_id expense_id
    expense ← or_raise found (not_found "Expense")
    ensure_can_access_expense graph req expense.submitted_by
    pure (expense_id, expense)

  -- `getComments`
  unfoldable pub get_comments : QueryValue → M (List CommentRow)
  unfolding readable_expense
  get_comments raw_id = do (expense_id, _) ← readable_expense raw_id; find_comments expense_id

  -- `addComment`, whose body was validated before
  unfoldable pub add_comment : QueryValue → Text → M CommentRow
  unfolding readable_expense
  add_comment raw_id body = do
    (expense_id, expense) ← readable_expense raw_id
    comment ←
        create_comment
          (record { expense_id = expense_id; author_id = req.user.id; body = trim body })
    expense_comment expense (actor_of req)
    pure comment
