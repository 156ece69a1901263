-- ===== src/Cred/Calls.antt =====
-- Sequences of the calls that change the credentials of a process: no sequence of them gives an
-- unprivileged process an identity that it did not hold.
use mirai_os.Prelude.{ℤ, truth, ◌≡◌, true, List, [], ◌∷◌, arith}
use mirai_os.Cred.{ProcessCred, set_id, set_reuid, OneOf}
use mirai_os.Cred.SetId.{set_id-unprivileged}
use mirai_os.Cred.SetReuid.{set_reuid-unprivileged}

-- A system call of the process, with its arguments.
pub data Call : Type 0 where
  set_id_call : (id which : ℤ) → Call
  set_reuid_call : (ruid euid which : ℤ) → Call

unfoldable pub call : Call → ProcessCred → ProcessCred
call (set_id_call id which) cred = (set_id id which cred).1
call (set_reuid_call ruid euid which) cred = (set_reuid ruid euid which cred).1

unfoldable pub calls : List Call → ProcessCred → ProcessCred
calls [] cred = cred
calls (c ∷ cs) cred = calls cs (call c cred)

-- None of the user and group identities is 0.
pub record IsUnprivileged (cred : ProcessCred) : Type 0 where
  pub ruid : truth cred.ruid ≡ true
  pub euid : truth cred.euid ≡ true
  pub suid : truth cred.suid ≡ true
  pub rgid : truth cred.rgid ≡ true
  pub egid : truth cred.egid ≡ true
  pub sgid : truth cred.sgid ≡ true

-- Each identity of `new` is one that `old` holds, and the saved ones and the groups are the same.
pub record Within (old new : ProcessCred) : Type 0 where
  pub ruid : OneOf new.ruid old.ruid old.euid old.suid
  pub euid : OneOf new.euid old.ruid old.euid old.suid
  pub suid : new.suid ≡ old.suid
  pub rgid : OneOf new.rgid old.rgid old.egid old.sgid
  pub egid : OneOf new.egid old.rgid old.egid old.sgid
  pub sgid : new.sgid ≡ old.sgid
  pub groups : new.groups ≡ old.groups

call-Within : (c : Call) (cred : ProcessCred) → IsUnprivileged cred → Within cred (call c cred)
unfolding call
call-Within (set_id_call id which) cred u =
    ground (arith, set_id-unprivileged id which cred u.euid u.egid)
call-Within (set_reuid_call ruid euid which) cred u =
    ground (arith, set_reuid-unprivileged ruid euid which cred u.euid u.egid)

Within-trans : {a b c : ProcessCred} → Within a b → Within b c → Within a c
Within-trans {a} {b} {c} p q = record {
  ruid = ground arith;
  euid = ground arith;
  suid = ground arith;
  rgid = ground arith;
  egid = ground arith;
  sgid = ground arith;
  groups = ground arith;
}

OneOf-truth :
    {x a b c : ℤ}
    → OneOf x a b c
    → truth a ≡ true
    → truth b ≡ true
    → truth c ≡ true
    → truth x ≡ true
OneOf-truth h p q r = ground arith

pub Within-IsUnprivileged :
    {old new : ProcessCred} → Within old new → IsUnprivileged old → IsUnprivileged new
Within-IsUnprivileged w u = record {
  ruid = OneOf-truth w.ruid u.ruid u.euid u.suid;
  euid = OneOf-truth w.euid u.ruid u.euid u.suid;
  suid = ground arith;
  rgid = OneOf-truth w.rgid u.rgid u.egid u.sgid;
  egid = OneOf-truth w.egid u.rgid u.egid u.sgid;
  sgid = ground arith;
}

Within-refl : (cred : ProcessCred) → Within cred cred
Within-refl cred = ground arith

-- For a process none of whose six identities is 0, after any sequence of `sysSetId` and
-- `sysSetReuid` calls, each real or effective identity is one of the real, effective and saved
-- identities of the same kind at the start, the saved identities and the groups are those of the
-- start, and none of the six is 0.
pub calls-Within :
    (cs : List Call) (cred : ProcessCred)
    → IsUnprivileged cred
    → Within cred (calls cs cred) × IsUnprivileged (calls cs cred)
unfolding calls
calls-Within [] cred u = (Within-refl cred, u)
calls-Within (c ∷ cs) cred u =
    let step = call-Within c cred u in
    let rest = calls-Within cs (call c cred) (Within-IsUnprivileged step u) in
    (Within-trans step rest.0, rest.1)
