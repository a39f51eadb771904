-- ===== src/Cache/Equality.antt =====
-- session-cache.ts: sessions that `sessionEquals` takes for equal.
use reins.Base.{
  ℕ, ◌≡◌, refl, ap, Bool, true, ◌&&◌, Option, none, some, Text, text_eq, text_eq→eq, ◌==◌, ==→eq,
  arith,
}
use reins.Cache.Sessions.{
  Activity, running, finished, Placement, Session, option_eq, bool_eq, activity_eq, both_placements,
  session_equals,
}

and_left : (a b : Bool) → (a && b) ≡ true → a ≡ true
and_left a b h = ground (arith, h)

and_right : (a b : Bool) → (a && b) ≡ true → b ≡ true
and_right a b h = ground (arith, h)

option_eq→eq :
    {A : Type 0} (eq : A → A → Bool) (a b : Option A)
    → ((x y : A) → eq x y ≡ true → x ≡ y)
    → option_eq eq a b ≡ true
    → a ≡ b
option_eq→eq eq none none s h = refl
option_eq→eq eq (some a) (some b) s h = ap some (s a b h)
option_eq→eq eq none (some b) s h = absurd (ground (arith, h))
option_eq→eq eq (some a) none s h = absurd (ground (arith, h))

bool_eq→eq : (a b : Bool) → bool_eq a b ≡ true → a ≡ b
bool_eq→eq a b h = ground (arith, h)

activity_eq→eq : (a b : Activity) → activity_eq a b ≡ true → a ≡ b
activity_eq→eq running running h = refl
activity_eq→eq finished finished h = refl
activity_eq→eq running finished h = absurd (ground (arith, h))
activity_eq→eq finished running h = absurd (ground (arith, h))

both_placements→eq : (a b : Placement) → both_placements a b ≡ true → a ≡ b
both_placements→eq a b h = ground (
  arith,
  h,
  text_eq→eq a.node_id b.node_id,
  text_eq→eq a.node_name b.node_name,
  text_eq→eq a.path b.path,
)

text_option : (a b : Option Text) → option_eq text_eq a b ≡ true → a ≡ b
text_option a b h = option_eq→eq text_eq a b text_eq→eq h

number_option : (a b : Option ℕ) → option_eq ◌==◌ a b ≡ true → a ≡ b
number_option a b h = option_eq→eq ◌==◌ a b ==→eq h

-- Sessions whose fields are equal.
same_fields :
    (a b : Session)
    → a.id ≡ b.id
    → a.project_id ≡ b.project_id
    → a.task_id ≡ b.task_id
    → a.parent_session_id ≡ b.parent_session_id
    → a.name ≡ b.name
    → a.created_at ≡ b.created_at
    → a.updated_at ≡ b.updated_at
    → a.first_message ≡ b.first_message
    → a.message_count ≡ b.message_count
    → a.activity_state ≡ b.activity_state
    → a.placement ≡ b.placement
    → a.pinned_at ≡ b.pinned_at
    → a.archived_at ≡ b.archived_at
    → a.source_extension ≡ b.source_extension
    → a.background ≡ b.background
    → a.pending_operation ≡ b.pending_operation
    → a.runtime_type ≡ b.runtime_type
    → a.state ≡ b.state
    → a ≡ b
same_fields a b h0 h1 h2 h3 h4 h5 h6 h7 h8 h9 h10 h11 h12 h13 h14 h15 h16 h17 = cc

-- Sessions of one id that are taken for equal are the same.
pub session_equals→eq : (a b : Session) → a.id ≡ b.id → session_equals a b ≡ true → a ≡ b
unfolding session_equals
session_equals→eq a b i h =
    let l16 = and_left _ _ h in
    let l15 = and_left _ _ l16 in
    let l14 = and_left _ _ l15 in
    let l13 = and_left _ _ l14 in
    let l12 = and_left _ _ l13 in
    let l11 = and_left _ _ l12 in
    let l10 = and_left _ _ l11 in
    let l9 = and_left _ _ l10 in
    let l8 = and_left _ _ l9 in
    let l7 = and_left _ _ l8 in
    let l6 = and_left _ _ l7 in
    let l5 = and_left _ _ l6 in
    let l4 = and_left _ _ l5 in
    let l3 = and_left _ _ l4 in
    let l2 = and_left _ _ l3 in
    let l1 = and_left _ _ l2 in
    same_fields a b i (number_option a.project_id b.project_id l1)
      (number_option a.task_id b.task_id (and_right _ _ l2))
      (text_option a.parent_session_id b.parent_session_id (and_right _ _ l3))
      (text_option a.name b.name (and_right _ _ l4))
      (text_option a.created_at b.created_at (and_right _ _ l5))
      (text_option a.updated_at b.updated_at (and_right _ _ l6))
      (text_option a.first_message b.first_message (and_right _ _ l7))
      (number_option a.message_count b.message_count (and_right _ _ l8))
      (option_eq→eq activity_eq a.activity_state b.activity_state activity_eq→eq (and_right _ _ l9))
      (option_eq→eq both_placements a.placement b.placement both_placements→eq (and_right _ _ l10))
      (text_option a.pinned_at b.pinned_at (and_right _ _ l11))
      (text_option a.archived_at b.archived_at (and_right _ _ l12))
      (text_option a.source_extension b.source_extension (and_right _ _ l13))
      (bool_eq→eq a.background b.background (and_right _ _ l14))
      (text_option a.pending_operation b.pending_operation (and_right _ _ l15))
      (text_option a.runtime_type b.runtime_type (and_right _ _ l16))
      (number_option a.state b.state (and_right _ _ h))
