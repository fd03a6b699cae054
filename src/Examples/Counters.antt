-- ===== src/Examples/Counters.antt =====
-- The counters, the wall, the comments, the versions and the reports.
use componi_back_nest.Prelude.{refl, none, List, [], ◌∷◌, arith, count, is_nat}
use componi_back_nest.Entities.Moderation.{ReportTargetType, ReportReason}
use componi_back_nest.Instances.Deployment.{deployment}
use componi_back_nest.Examples.Start.{start, tables, same_text}
use componi_back_nest.Social.Frames.{IsCounted}
use componi_back_nest.Social.History.{
  Action, likes, follows, blocks, unlikes, perform_all, perform_all-IsCounted,
}
use componi_back_nest.Social.Wall.{WallStands}
use componi_back_nest.Social.Wall.Requests.{perform_all-WallStands}
use componi_back_nest.Comments.{CreateCommentDto}
use componi_back_nest.Comments.Counted.{CommentsCounted}
use componi_back_nest.Comments.Counted.Steps.{
  CommentStep, creates, removes, steps, steps-CommentsCounted,
}
use componi_back_nest.Versions.{PublishVersionDto, publish}
use componi_back_nest.Versions.Numbered.{Numbered, publish-Numbered}
use componi_back_nest.Moderation.Reports.{CreateReportDto}
use componi_back_nest.Moderation.Reports.OneOpen.{OneOpen, files, step, step-OneOpen}

-- User 1 likes the component and follows its author, who then blocks user 1.
abbrev afternoon : List Action
afternoon = likes 1 10 ∷ follows 1 2 ∷ blocks 2 1 none ∷ unlikes 1 10 ∷ []

tables-IsCounted : IsCounted tables
unfolding count is_nat
tables-IsCounted = record {
  likes = record { once = λ a b. omega arith; counted = refl };
  favorites = record { once = λ a b. omega arith; counted = refl };
  follows = record { once = λ a b. omega arith; following = refl; followers = refl };
}

perform_all-IsCounted_example : IsCounted (perform_all deployment same_text afternoon start).db
perform_all-IsCounted_example =
    perform_all-IsCounted deployment same_text afternoon start tables-IsCounted

tables-WallStands : WallStands tables
unfolding count
tables-WallStands x y h = refl

perform_all-WallStands_example : WallStands (perform_all deployment same_text afternoon start).db
perform_all-WallStands_example =
    perform_all-WallStands deployment same_text afternoon start tables-WallStands

abbrev hello : CreateCommentDto
hello = record { parent_id = none; body = "hello" }

-- The ids that the database draws begin at 100.
abbrev talk : List CommentStep
talk = creates 10 1 hello ∷ removes 100 1 ∷ []

tables-CommentsCounted : CommentsCounted tables
unfolding count is_nat
tables-CommentsCounted = record { key = λ id. omega arith; counted = refl }

steps-CommentsCounted_example : CommentsCounted (steps deployment same_text talk start).db
steps-CommentsCounted_example =
    steps-CommentsCounted deployment same_text talk start tables-CommentsCounted

abbrev first_version : PublishVersionDto
first_version = record {
  code = "export {}";
  dependencies = [];
  entry_file = none;
  changelog = none;
}

tables-Numbered : Numbered tables
unfolding count
tables-Numbered c n = ground arith

publish-Numbered_example : Numbered (publish deployment 10 2 first_version start).1.db
publish-Numbered_example = publish-Numbered deployment 10 2 first_version start tables-Numbered

abbrev complaint : CreateReportDto
complaint = record {
  target_type = ReportTargetType.component;
  target_id = 10;
  reason = ReportReason.spam;
  details = none;
}

tables-OneOpen : OneOpen tables
unfolding count
tables-OneOpen reporter t id = omega arith

step-OneOpen_example : OneOpen (step deployment same_text (files 1 complaint) start).db
step-OneOpen_example = step-OneOpen deployment same_text (files 1 complaint) start tables-OneOpen
