-- ===== src/Review/Identity/Histories.antt =====
-- code-review.ts: any commands keep a review valid.
use reins.Base.{List, [], ◌∷◌}
use reins.Review.Model.{Review}
use reins.Review.Operations.{Command, adds, upserts, replies, deletes, perform, after, perform_all}
use reins.Review.Identity.Validity.{IsValid}
use reins.Review.Identity.Additions.{add_annotation-IsValid}
use reins.Review.Identity.Imports.{upsert_annotation-IsValid}
use reins.Review.Identity.Replies.{add_reply-IsValid}
use reins.Review.Identity.Deletions.{delete_comment-IsValid}

perform-IsValid :
    (r : Review) (c : Command) → IsValid r.annotations → IsValid (after r (perform r c)).annotations
unfolding perform
perform-IsValid r (adds input) v = add_annotation-IsValid r input v
perform-IsValid r (upserts input) v = upsert_annotation-IsValid r input v
perform-IsValid r (replies id entry) v = add_reply-IsValid r id entry v
perform-IsValid r (deletes id) v = delete_comment-IsValid r id v

-- From a valid review, any commands, also failing ones, keep it valid: each entry id, source key and
-- annotation id stands in it at most once, each anchor is valid and no annotation is empty.
pub perform_all-IsValid :
    (r : Review) (cs : List Command)
    → IsValid r.annotations
    → IsValid (perform_all r cs).annotations
unfolding perform_all
perform_all-IsValid r [] v = v
perform_all-IsValid r (c ∷ cs) v =
    perform_all-IsValid (after r (perform r c)) cs (perform-IsValid r c v)
