-- ===== src/Cred/SetReuid.antt =====
-- `sysSetReuid`, and sequences of calls.
use mirai_os.Prelude.{ℤ, pos, is_neg, truth, ==ℤ_iff, ◌≡◌, ◌≢◌, true, false, arith}
use mirai_os.Cred.{ProcessCred, eperm, set_reuid_user, set_reuid_group, set_reuid, OneOf}

pub set_reuid_user-unprivileged :
    (ruid euid : ℤ) (cred : ProcessCred)
    → truth cred.euid ≡ true
    → let c = (set_reuid_user ruid euid cred).1 in
      (c ≡ record cred { ruid = c.ruid; euid = c.euid })
      × OneOf c.ruid cred.ruid cred.euid cred.suid
      × OneOf c.euid cred.euid cred.ruid cred.suid
unfolding set_reuid_user
set_reuid_user-unprivileged ruid euid cred hu = ground (
  arith,
  ==ℤ_iff ruid cred.ruid,
  ==ℤ_iff ruid cred.euid,
  ==ℤ_iff euid cred.ruid,
  ==ℤ_iff euid cred.euid,
  ==ℤ_iff euid cred.suid,
)

pub set_reuid_group-unprivileged :
    (rgid egid : ℤ) (cred : ProcessCred)
    → truth cred.egid ≡ true
    → let c = (set_reuid_group rgid egid cred).1 in
      (c ≡ record cred { rgid = c.rgid; egid = c.egid })
      × OneOf c.rgid cred.rgid cred.egid cred.sgid
      × OneOf c.egid cred.egid cred.rgid cred.sgid
unfolding set_reuid_group
set_reuid_group-unprivileged rgid egid cred hg = ground (
  arith,
  ==ℤ_iff rgid cred.rgid,
  ==ℤ_iff rgid cred.egid,
  ==ℤ_iff egid cred.rgid,
  ==ℤ_iff egid cred.egid,
  ==ℤ_iff egid cred.sgid,
)

-- An unprivileged caller that asks for a valid new effective user and for no change of the real
-- one (`ruid` negative) is refused with -EPERM and nothing changes.
pub set_reuid-keep_real :
    (ruid euid : ℤ) (cred : ProcessCred)
    → truth cred.euid ≡ true
    → is_neg ruid ≡ true
    → is_neg euid ≡ false
    → set_reuid ruid euid (pos 0) cred ≡ (eperm, cred)
unfolding set_reuid set_reuid_user
set_reuid-keep_real ruid euid cred hu hr he = ground arith

-- A caller without privilege that passes a real user it does not hold, and no effective user, is
-- told 0 (success) although nothing changes.
pub set_reuid-silent :
    (ruid euid : ℤ) (cred : ProcessCred)
    → truth cred.euid ≡ true
    → is_neg euid ≡ true
    → ruid ≢ cred.ruid
    → ruid ≢ cred.euid
    → set_reuid ruid euid (pos 0) cred ≡ (pos 0, cred)
unfolding set_reuid set_reuid_user
set_reuid-silent ruid euid cred hu he h1 h2 =
    ground (arith, ==ℤ_iff ruid cred.ruid, ==ℤ_iff ruid cred.euid)

-- Where the effective user and group are not 0, `sysSetReuid` changes no saved identity and no
-- group, and sets a real or effective identity only to one that the process holds.
pub set_reuid-unprivileged :
    (ruid euid which : ℤ) (cred : ProcessCred)
    → truth cred.euid ≡ true
    → truth cred.egid ≡ true
    → let c = (set_reuid ruid euid which cred).1 in
      (c ≡ record cred { ruid = c.ruid; euid = c.euid; rgid = c.rgid; egid = c.egid })
      × OneOf c.ruid cred.ruid cred.euid cred.suid
      × OneOf c.euid cred.euid cred.ruid cred.suid
      × OneOf c.rgid cred.rgid cred.egid cred.sgid
      × OneOf c.egid cred.egid cred.rgid cred.sgid
unfolding set_reuid
set_reuid-unprivileged ruid euid which cred hu hg = ground (
  arith,
  set_reuid_user-unprivileged ruid euid cred hu,
  set_reuid_group-unprivileged ruid euid cred hg,
)
