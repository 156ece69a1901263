-- ===== src/Group/Tests.antt =====
-- An instance of the theorem on process groups, kernel/sched/pgrp.c
use mirai_os.Prelude.{◌≡◌, refl, ◌==◌, if◌then◌else◌, false, [], ◌∷◌, arith}
use mirai_os.RbTree.Delete.{done}
use mirai_os.Group.{Groups, leave_group}
use mirai_os.Group.Chain.{IsGroup}
use mirai_os.Group.Leave.{LeftGroup, leave_group-LeftGroup}

-- The group 5 has the processes 10, 11 and 12.
abbrev state : Groups
state = record {
  members = λ p. record {
    pid = p;
    ppid = 1;
    pgid = 10;
    sid = 10;
    group = 5;
    grp_next = if p == 10 then 11 else if p == 11 then 12 else 0;
    grp_prev = if p == 12 then 11 else if p == 11 then 10 else 0;
  };
  groups = λ g. record { session = 3; pgid = 10; next = 0; prev = 0; first = 10; last = 12 };
  sessions = λ s. record { sid = 10; next = 0; prev = 0; first = 5; last = 5 };
  tree = record {
    root = 5;
    node = λ n. record { parent = 0; left_child = 0; right_child = 0; value = 10; is_red = false };
  };
  first_session = 3;
  last_session = 3;
  freed = [];
}

state-IsGroup : IsGroup state 5 (10 ∷ 11 ∷ 12 ∷ [])
state-IsGroup = record {
  first = refl;
  last = refl;
  links = (
    ground arith,
    refl,
    refl,
    refl,
    refl,
    (ground arith, refl, refl, refl, refl, (ground arith, refl, refl, refl, refl, tt)),
  );
}

leave_group-LeftGroup_example :
    (w' : Groups) × (leave_group 9 11 state ≡ done w') × LeftGroup state w' 5 11 (10 ∷ []) (12 ∷ [])
leave_group-LeftGroup_example =
    leave_group-LeftGroup state 5 11 (10 ∷ []) (12 ∷ []) state-IsGroup (omega arith) 9 (omega arith)
