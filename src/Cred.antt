-- ===== src/Cred.antt =====
-- User and group identities of a process: the calls of kernel/sched/pgrp.c that read and change
-- `struct ProcessCred` (kernel/include/sched/process.h). The calls return the C result and the new
-- credentials. `uid_t`, `gid_t` and `pid_t` are `int`, so identities are integers: -1 asks
-- `sysSetReuid` to leave a field alone.
pub mod Calls
pub mod SetId
pub mod SetReuid
mod Tests
use mirai_os.Prelude.{
  ℕ, ℤ, pos, neg, is_neg, truth, ◌==ℤ◌, ◌≡◌, ◌⊎◌, Bool, true, false, not, ◌&&◌, ◌||◌, List,
  if◌then◌else◌,
}

pub record ProcessCred : Type 0 where
  pub ruid : ℤ
  pub euid : ℤ
  pub suid : ℤ
  pub rgid : ℤ
  pub egid : ℤ
  pub sgid : ℤ
  pub nrof_groups : ℕ
  pub groups : List ℤ

-- Error numbers of kernel/include/uapi/errno.h.
abbrev pub einval : ℤ
einval = neg 2

abbrev pub eperm : ℤ
eperm = neg 17

-- Selectors of kernel/include/uapi/syscalls.h.
abbrev pub syssetid_uid : ℤ
syssetid_uid = pos 4

abbrev pub syssetid_euid : ℤ
syssetid_euid = pos 5

abbrev pub syssetid_gid : ℤ
syssetid_gid = pos 6

abbrev pub syssetid_egid : ℤ
syssetid_egid = pos 7

-- `x` is one of three identities.
abbrev pub OneOf : ℤ → ℤ → ℤ → ℤ → Type 0
OneOf x a b c = (x ≡ a) ⊎ (x ≡ b) ⊎ (x ≡ c)

-- The four cases of the switch in `sysSetId`.
pub set_uid : ℤ → ProcessCred → ℤ × ProcessCred
set_uid id cred =
    if truth cred.euid
    then (if (id ==ℤ cred.ruid) || (id ==ℤ cred.suid)
        then (pos 0, record cred { euid = id })
        else (eperm, cred))
    else (pos 0, record cred { ruid = id; euid = id; suid = id })

pub set_euid : ℤ → ProcessCred → ℤ × ProcessCred
set_euid id cred =
    if truth cred.euid && not (id ==ℤ cred.ruid) && not (id ==ℤ cred.suid)
    then (eperm, cred)
    else (pos 0, record cred { euid = id })

pub set_gid : ℤ → ProcessCred → ℤ × ProcessCred
set_gid id cred =
    if truth cred.egid
    then (if (id ==ℤ cred.rgid) || (id ==ℤ cred.sgid)
        then (pos 0, record cred { egid = id })
        else (eperm, cred))
    else (pos 0, record cred { rgid = id; egid = id; sgid = id })

pub set_egid : ℤ → ProcessCred → ℤ × ProcessCred
set_egid id cred =
    if truth cred.egid && not (id ==ℤ cred.rgid) && not (id ==ℤ cred.sgid)
    then (eperm, cred)
    else (pos 0, record cred { egid = id })

-- `sysSetId`: the credentials are those of the calling process.
pub set_id : ℤ → ℤ → ProcessCred → ℤ × ProcessCred
set_id id which cred =
    if is_neg id
    then (einval, cred)
    else if which ==ℤ syssetid_uid
    then set_uid id cred
    else if which ==ℤ syssetid_euid
    then set_euid id cred
    else if which ==ℤ syssetid_gid
    then set_gid id cred
    else if which ==ℤ syssetid_egid
    then set_egid id cred
    else (einval, cred)

-- The body of `sysSetReuid` is written twice in the source, for groups and for users, on the
-- fields (real, effective, saved). It is the same code up to the field names: this is the part of
-- the unprivileged branch behind the first test, with its flag `setEgid` or `setEuid`.
set_real : ℤ → ℤ → Bool → ProcessCred → ℤ × ProcessCred
set_real ruid euid set_euid' cred =
    if not (is_neg ruid) && ((ruid ==ℤ cred.ruid) || (ruid ==ℤ cred.euid))
    then finish (record cred { ruid = ruid })
    else if not (is_neg euid)
    then (eperm, cred)
    else finish cred
  where
    finish : ProcessCred → ℤ × ProcessCred
    finish c = (pos 0, if set_euid' then record c { euid = euid } else c)

set_real_group : ℤ → ℤ → Bool → ProcessCred → ℤ × ProcessCred
set_real_group rgid egid set_egid' cred =
    if not (is_neg rgid) && ((rgid ==ℤ cred.rgid) || (rgid ==ℤ cred.egid))
    then finish (record cred { rgid = rgid })
    else if not (is_neg egid)
    then (eperm, cred)
    else finish cred
  where
    finish : ProcessCred → ℤ × ProcessCred
    finish c = (pos 0, if set_egid' then record c { egid = egid } else c)

-- The branch of `sysSetReuid` for `which == 0`.
pub set_reuid_user : ℤ → ℤ → ProcessCred → ℤ × ProcessCred
unfolding set_real
set_reuid_user ruid euid cred =
    if truth cred.euid
    then (if not (is_neg euid)
          && ((euid ==ℤ cred.ruid) || (euid ==ℤ cred.euid) || (euid ==ℤ cred.suid))
        then set_real ruid euid true cred
        else if not (is_neg euid)
        then (eperm, cred)
        else set_real ruid euid false cred)
    else (let c = if is_neg ruid then cred else record cred { ruid = ruid } in
        (pos 0, if is_neg euid then c else record c { euid = euid }))

-- The branch of `sysSetReuid` for `which != 0`.
pub set_reuid_group : ℤ → ℤ → ProcessCred → ℤ × ProcessCred
unfolding set_real_group
set_reuid_group rgid egid cred =
    if truth cred.egid
    then (if not (is_neg egid)
          && ((egid ==ℤ cred.rgid) || (egid ==ℤ cred.egid) || (egid ==ℤ cred.sgid))
        then set_real_group rgid egid true cred
        else if not (is_neg egid)
        then (eperm, cred)
        else set_real_group rgid egid false cred)
    else (let c = if is_neg rgid then cred else record cred { rgid = rgid } in
        (pos 0, if is_neg egid then c else record c { egid = egid }))

-- `sysSetReuid(ruid, euid, which)`
pub set_reuid : ℤ → ℤ → ℤ → ProcessCred → ℤ × ProcessCred
set_reuid ruid euid which cred =
    if truth which then set_reuid_group ruid euid cred else set_reuid_user ruid euid cred
