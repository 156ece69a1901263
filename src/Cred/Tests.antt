-- ===== src/Cred/Tests.antt =====
-- Runs of the credential calls, and instances of their theorems.
use mirai_os.Prelude.{pos, neg, ◌≡◌, ◌⊎◌, refl, List, [], ◌∷◌, arith}
use mirai_os.Cred.{ProcessCred, einval, syssetid_uid, set_id, set_reuid, set_uid}
use mirai_os.Cred.SetId.{set_id-unprivileged}
use mirai_os.Cred.SetReuid.{set_reuid-silent}
use mirai_os.Cred.Calls.{
  Call, set_id_call, set_reuid_call, calls, IsUnprivileged, Within, calls-Within,
}

abbrev user : ProcessCred
user = record {
  ruid = pos 5;
  euid = pos 7;
  suid = pos 7;
  rgid = pos 3;
  egid = pos 3;
  sgid = pos 3;
  nrof_groups = 0;
  groups = [];
}

abbrev root : ProcessCred
root = record user { ruid = pos 0; euid = pos 0; suid = pos 0 }

user-IsUnprivileged : IsUnprivileged user
user-IsUnprivileged = record {
  ruid = refl;
  euid = refl;
  suid = refl;
  rgid = refl;
  egid = refl;
  sgid = refl;
}

root_drops :
    set_id (pos 9) syssetid_uid root
    ≡ (pos 0, record root { ruid = pos 9; euid = pos 9; suid = pos 9 })
unfolding set_id set_uid
root_drops = refl

negative_refused : set_id (neg 1) syssetid_uid root ≡ (einval, root)
unfolding set_id
negative_refused = refl

set_id-unprivileged_example :
    let c = (set_id (pos 5) syssetid_uid user).1 in
    (c ≡ record user { euid = c.euid; egid = c.egid })
    × ((c.euid ≡ pos 7) ⊎ (c.euid ≡ pos 5) ⊎ (c.euid ≡ pos 7))
    × ((c.egid ≡ pos 3) ⊎ (c.egid ≡ pos 3) ⊎ (c.egid ≡ pos 3))
set_id-unprivileged_example = set_id-unprivileged (pos 5) syssetid_uid user refl refl

set_reuid-silent_example : set_reuid (pos 0) (neg 1) (pos 0) user ≡ (pos 0, user)
set_reuid-silent_example =
    set_reuid-silent (pos 0) (neg 1) user refl refl (λ e. ground arith) (λ e. ground arith)

abbrev script : List Call
script =
    set_id_call (pos 5) syssetid_uid
    ∷ set_reuid_call (pos 0) (pos 0) (pos 0)
    ∷ set_reuid_call (pos 7) (pos 7) (pos 0)
    ∷ []

calls-Within_example : Within user (calls script user) × IsUnprivileged (calls script user)
calls-Within_example = calls-Within script user user-IsUnprivileged
