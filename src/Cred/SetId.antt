-- ===== src/Cred/SetId.antt =====
-- `sysSetId`: what a failed call leaves, and which fields an unprivileged call can write.
use mirai_os.Prelude.{ℤ, pos, truth, ==ℤ_iff, ◌≡◌, ◌≢◌, true, arith}
use mirai_os.Cred.{ProcessCred, set_uid, set_euid, set_gid, set_egid, set_id, OneOf}

-- A call of `sysSetId` that does not return 0 leaves the credentials as they are.
pub set_id-failed :
    (id which : ℤ) (cred : ProcessCred)
    → (set_id id which cred).0 ≢ pos 0
    → (set_id id which cred).1 ≡ cred
unfolding set_id set_uid set_euid set_gid set_egid
set_id-failed id which cred h = ground arith

-- Where the effective user and group are not 0, `sysSetId` writes the effective identities at
-- most, and only values that the process holds as its effective, real or saved identity of the
-- same kind.
pub set_id-unprivileged :
    (id which : ℤ) (cred : ProcessCred)
    → truth cred.euid ≡ true
    → truth cred.egid ≡ true
    → let c = (set_id id which cred).1 in
      (c ≡ record cred { euid = c.euid; egid = c.egid })
      × OneOf c.euid cred.euid cred.ruid cred.suid
      × OneOf c.egid cred.egid cred.rgid cred.sgid
unfolding set_id set_uid set_euid set_gid set_egid
set_id-unprivileged id which cred hu hg =
    ground (
      arith,
      ==ℤ_iff id cred.ruid,
      ==ℤ_iff id cred.suid,
      ==ℤ_iff id cred.rgid,
      ==ℤ_iff id cred.sgid,
    )
