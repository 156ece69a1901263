-- ===== src/Group.antt =====
-- Process groups and sessions, kernel/sched/pgrp.c: `leaveGroup` with `unlinkGroup`, and `getPGroup`.
-- Processes, groups and sessions have their own addresses; a group's `struct RbNode` is the node at the
-- group's address in the tree `pgRoot`. A pid is not negative here. What is freed is recorded. The lock makes
-- each call one step. The functions on the tree have fuel, and a fault is a field of NULL.
pub mod Chain
pub mod Leave
mod Tests
use mirai_os.Prelude.{
  ℕ, zero, suc, ◌+◌, ◌-◌, ◌==◌, Bool, true, false, not, ◌&&◌, ◌||◌, if◌then◌else◌, Option, none,
  some, List, [], ◌∷◌, ℤ, pos, neg,
}
use mirai_os.RbTree.{Ptr, null, RbNode, RbTree, set_node, rb_insert, rb_search}
use mirai_os.RbTree.Delete.{Run, no_fuel, fault, done, rb_delete}

-- What `struct Process` has for groups.
pub record Member : Type 0 where
  pub pid : ℕ
  pub ppid : ℕ
  pub pgid : ℕ
  pub sid : ℕ
  pub group : Ptr
  pub grp_next : Ptr
  pub grp_prev : Ptr

-- `struct PGroup`, without its node.
pub record PGroup : Type 0 where
  pub session : Ptr
  pub pgid : ℕ
  pub next : Ptr
  pub prev : Ptr
  pub first : Ptr
  pub last : Ptr

-- `struct Session`
pub record Session : Type 0 where
  pub sid : ℕ
  pub next : Ptr
  pub prev : Ptr
  pub first : Ptr
  pub last : Ptr

-- The objects, `pgRoot`, `firstSession` and `lastSession`, and the heap.
pub record Groups : Type 0 where
  pub members : Ptr → Member
  pub groups : Ptr → PGroup
  pub sessions : Ptr → Session
  pub tree : RbTree
  pub first_session : Ptr
  pub last_session : Ptr
  pub freed : List Ptr

abbrev pub put_member : Ptr → Member → Groups → Groups
put_member p v w = record w { members = λ q. if q == p then v else w.members q }

abbrev pub put_group : Ptr → PGroup → Groups → Groups
put_group p v w = record w { groups = λ q. if q == p then v else w.groups q }

abbrev pub put_session : Ptr → Session → Groups → Groups
put_session p v w = record w { sessions = λ q. if q == p then v else w.sessions q }

abbrev pub set_grp_next : Ptr → Ptr → Groups → Groups
set_grp_next p v w = put_member p (record (w.members p) { grp_next = v }) w

abbrev pub set_grp_prev : Ptr → Ptr → Groups → Groups
set_grp_prev p v w = put_member p (record (w.members p) { grp_prev = v }) w

abbrev pub set_first : Ptr → Ptr → Groups → Groups
set_first g v w = put_group g (record (w.groups g) { first = v }) w

abbrev pub set_last : Ptr → Ptr → Groups → Groups
set_last g v w = put_group g (record (w.groups g) { last = v }) w

-- `unlinkGroup` where the session has no group left.
pub delete_session : Ptr → Groups → Groups
delete_session s w =
    let prev = (w.sessions s).prev in
    let next = (w.sessions s).next in
    let w1 =
      if prev == null
      then record w { first_session = next }
      else put_session prev (record (w.sessions prev) { next = next }) w in
    let w2 =
      if next == null
      then record w1 { last_session = prev }
      else put_session next (record (w1.sessions next) { prev = prev }) w1 in
    record w2 { freed = s ∷ w2.freed }

-- `unlinkGroup`
pub unlink_group : Ptr → Groups → Groups
unlink_group g w =
    let s = (w.groups g).session in
    let prev = (w.groups g).prev in
    let next = (w.groups g).next in
    let w1 =
      if prev == null
      then put_session s (record (w.sessions s) { first = next }) w
      else put_group prev (record (w.groups prev) { next = next }) w in
    let w2 =
      if next == null
      then put_session s (record (w1.sessions s) { last = prev }) w1
      else put_group next (record (w1.groups next) { prev = prev }) w1 in
    if ((w2.sessions s).first == null) && ((w2.sessions s).last == null)
    then delete_session s w2
    else w2

-- The two `if` statements of `leaveGroup` on the neighbours, which are its values here.
pub leave_prev : (g prev next : Ptr) → Groups → Groups
leave_prev g prev next w = if prev == null then set_first g next w else set_grp_next prev next w

pub leave_next : (g prev next : Ptr) → Groups → Groups
leave_next g prev next w = if next == null then set_last g prev w else set_grp_prev next prev w

-- `leaveGroup` up to the test whether the group is empty.
pub leave_members : (proc : Ptr) → Groups → Groups
leave_members proc w =
    let m = w.members proc in
    let w1 = leave_prev m.group m.grp_prev m.grp_next w in
    let w2 = leave_next m.group (w1.members proc).grp_prev (w1.members proc).grp_next w1 in
    put_member proc (record (w2.members proc) { grp_next = null; grp_prev = null }) w2

-- `proc->group = NULL`
abbrev pub forget_group : (proc : Ptr) → Groups → Groups
forget_group proc w = put_member proc (record (w.members proc) { group = null }) w

-- `leaveGroup` where the group is empty: the tree is that of `rbDelete`.
pub delete_group : (proc g : Ptr) → Groups → Run (Ptr × RbTree) → Run Groups
delete_group proc g w no_fuel = no_fuel
delete_group proc g w fault = fault
delete_group proc g w (done (node, tree)) =
    done (forget_group proc (record w { tree = tree; freed = g ∷ w.freed }))

-- `leaveGroup`
pub leave_group : (fuel : ℕ) (proc : Ptr) → Groups → Run Groups
leave_group fuel proc w =
    let g = (w.members proc).group in
    let w1 = leave_members proc w in
    let w2 = unlink_group g w1 in
    if g == null
    then done w
    else if ((w1.groups g).first == null) && ((w1.groups g).last == null)
    then delete_group proc g w2 (rb_delete fuel (w2.groups g).pgid w2.tree)
    else done (forget_group proc w1)

-- `getPGroup`
pub get_p_group : (fuel pgid : ℕ) → Groups → Option Ptr
get_p_group fuel pgid w = rb_search fuel w.tree.root pgid w.tree
